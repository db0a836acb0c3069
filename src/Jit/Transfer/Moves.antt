-- ===== src/Jit/Transfer/Moves.antt =====
-- linux/ownership/cbpf_jit.c, `admit`: the moves, the store and the load.
use c_bpf.Base.{
  ℕ, zero, suc, ◌+◌, ◌≡◌, refl, true, false, not, ◌&&◌, ◌||◌, ◌==◌, if◌then◌else◌, store, ℤ, pos,
  negsuc, arith, to_word, ltb, Bool-cases, inl, inr,
}
use c_bpf.Jit.{BpfInsn, Kind, Flow, nonempty, is_defined, only_zero, only_scalar}
use c_bpf.Jit.Admit
use c_bpf.Jit.Admit.{
  Operation, no_operation, acquire, read, release, Linkage, call_operation, Transfer, refuse, pass,
  Passed, transfer, transfer_mov_x, transfer_mov_k, transfer_store, transfer_load, transfer_branch,
  branch_by, branch_to, forward, transfer_call, transfer_exit, clobber,
}
use c_bpf.Jit.Execution.{
  Value, garbage, number, token, State, next, stuck, moves, Allows, Covers, put,
}
use c_bpf.Jit.Transfer.Agreement.{Agrees}

pub store-Allows :
    (f : ℕ → Kind) (s : ℕ → Value) (r : ℕ) (k : Kind) (v : Value)
    → ((j : ℕ) → Allows (f j) (s j))
    → Allows k v
    → (j : ℕ) → Allows (store f r k j) (store s r v j)
store-Allows f s r k v h e j = elim (Bool-cases (j == r)) [ inl q ↦ rw q e | inr q ↦ rw q (h j) ]

moves-Agrees :
    (g : Flow) (pc : ℕ) (k : Kind) (v : Value) (s : State)
    → is_defined k ≡ true
    → Allows k v
    → Covers g s
    → Agrees (Admit.simply g) pc (moves v pc s)
unfolding moves is_defined nonempty
moves-Agrees g pc k garbage s d h c = ground arith
moves-Agrees g pc k (number n) s d h c = inl (refl, refl, c)
moves-Agrees g pc k (token i) s d h c = inl (refl, refl, c)

put-Covers :
    (f : Flow) (s : State) (r : ℕ) (k : Kind) (v : Value)
    → Covers f s
    → Allows k v
    → Covers (record f { reg = store f.reg r k }) (put s r v)
put-Covers f s r k v c h = record {
  reached = c.reached;
  reg = store-Allows f.reg s.reg r k v c.reg h;
  spill = c.spill;
}

pub number-Allows : (n : ℕ) → Allows only_scalar (number n)
number-Allows zero = refl
number-Allows (suc n) = refl

pub mov_x-Agrees :
    (i : BpfInsn) (pc : ℕ) (f : Flow) (s : State)
    → Covers f s
    → Agrees
        (transfer_mov_x i f)
        pc
        (moves (s.reg i.src_reg) pc (put s i.dst_reg (s.reg i.src_reg)))
unfolding transfer_mov_x
mov_x-Agrees i pc f s c =
    elim (Bool-cases (
      ltb 9 i.dst_reg
      || ltb 9 i.src_reg
      || Admit.nonzero i.off
      || Admit.nonzero i.imm
      || not (is_defined (f.reg i.src_reg)))) [
        | inl e ↦ rw e tt
        | inr e ↦ rw e (
            moves-Agrees _ pc (f.reg i.src_reg) _ _ (ground arith) (c.reg i.src_reg)
              (put-Covers f s i.dst_reg _ _ c (c.reg i.src_reg)))
      ]

suc-nonzero : (n : ℕ) → (suc n == 0) ≡ false
suc-nonzero n = ground arith

pub mov_k-Agrees :
    (i : BpfInsn) (pc : ℕ) (f : Flow) (s : State)
    → Covers f s
    → Agrees (transfer_mov_k i f) pc (next (pc + 1) (put s i.dst_reg (number (to_word 64 i.imm))))
unfolding transfer_mov_k
mov_k-Agrees i pc f s c =
    elim (Bool-cases (ltb 9 i.dst_reg || not (i.src_reg == 0) || Admit.nonzero i.off)) [
      | inl e ↦ rw e tt
      | inr e ↦ rw e (inl (refl, refl, put-Covers f s i.dst_reg _ _ c (loaded i.imm)))
    ]
  where
    loaded :
        (v : ℤ)
        → Allows (if Admit.nonzero v then only_scalar else only_zero) (number (to_word 64 v))
    loaded (pos zero) = refl
    loaded (pos (suc n)) = rw (suc-nonzero n) (number-Allows (to_word 64 (pos (suc n))))
    loaded (negsuc n) = number-Allows (to_word 64 (negsuc n))

pub store-Agrees :
    (i : BpfInsn) (pc : ℕ) (f : Flow) (s : State)
    → Covers f s
    → Agrees (transfer_store i f) pc (
        if i.dst_reg == 10 && Admit.is_slot i.off
        then moves (s.reg i.src_reg) pc (record s { spill = s.reg i.src_reg })
        else stuck)
unfolding transfer_store
store-Agrees i pc f s c =
    elim (Bool-cases (
      not (i.dst_reg == 10)
      || ltb 9 i.src_reg
      || not (Admit.is_slot i.off)
      || Admit.nonzero i.imm
      || not (is_defined (f.reg i.src_reg)))) [
        | inl e ↦ rw e tt
        | inr e ↦
            let slot : (i.dst_reg == 10 && Admit.is_slot i.off) ≡ true = ground arith in
            rw (e, slot)
              (moves-Agrees _ pc (f.reg i.src_reg) _ _ (ground arith) (c.reg i.src_reg)
                record { reached = c.reached; reg = c.reg; spill = c.reg i.src_reg })
      ]

pub load-Agrees :
    (i : BpfInsn) (pc : ℕ) (f : Flow) (s : State)
    → Covers f s
    → Agrees (transfer_load i f) pc (
        if i.src_reg == 10 && Admit.is_slot i.off
        then moves s.spill pc (put s i.dst_reg s.spill)
        else stuck)
unfolding transfer_load
load-Agrees i pc f s c =
    elim (Bool-cases (
      ltb 9 i.dst_reg
      || not (i.src_reg == 10)
      || not (Admit.is_slot i.off)
      || Admit.nonzero i.imm
      || not (is_defined f.spill))) [
        | inl e ↦ rw e tt
        | inr e ↦
            let slot : (i.src_reg == 10 && Admit.is_slot i.off) ≡ true = ground arith in
            rw (e, slot)
              (moves-Agrees _ pc f.spill _ _ (ground arith) c.spill
                (put-Covers f s i.dst_reg _ _ c c.spill))
      ]
