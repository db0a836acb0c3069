-- ===== src/Jit/Transfer/Calls.antt =====
-- linux/ownership/cbpf_jit.c, `admit`: the exit and the calls.
use c_bpf.Base.{
  ℕ, zero, suc, ◌+◌, ◌≡◌, refl, true, false, not, ◌&&◌, ◌||◌, Option, none, some, ◌==◌, store,
  arith, leb, ltb, Bool-cases, inl, inr,
}
use c_bpf.Jit.{
  BpfInsn, Kind, Flow, nonempty, is_scalar, is_handle, only_zero, only_scalar, handle_or_zero,
}
use c_bpf.Jit.Admit
use c_bpf.Jit.Admit.{
  Operation, no_operation, acquire, read, release, Linkage, call_operation, Transfer, refuse, pass,
  Passed, transfer, transfer_mov_x, transfer_mov_k, transfer_store, transfer_load, transfer_branch,
  branch_by, branch_to, forward, transfer_call, transfer_exit, clobber,
}
use c_bpf.Jit.Execution.{
  Value, garbage, number, token, State, Answer, gates, leaves, Allows, Covers, after_call, answers,
}
use c_bpf.Jit.Transfer.Agreement.{Follows, Agrees}
use c_bpf.Jit.Transfer.Moves.{store-Allows, number-Allows}

leaves-Follows :
    (r : Passed) (pc : ℕ) (k : Kind) (v : Value)
    → is_scalar k ≡ true
    → Allows k v
    → Follows r pc (leaves v)
unfolding leaves is_scalar nonempty
leaves-Follows r pc k garbage d h = ground arith
leaves-Follows r pc k (number n) d h = tt
leaves-Follows r pc k (token j) d h = ground arith

pub exit-Agrees :
    (i : BpfInsn) (pc : ℕ) (f : Flow) (s : State)
    → Covers f s
    → Agrees (transfer_exit i f) pc (leaves (s.reg 0))
unfolding transfer_exit
exit-Agrees i pc f s c =
    elim (Bool-cases (
      not (i.dst_reg == 0)
      || not (i.src_reg == 0)
      || Admit.nonzero i.off
      || Admit.nonzero i.imm
      || not (is_scalar (f.reg 0)))) [
        | inl e ↦ rw e tt
        | inr e ↦ rw e (
            leaves-Follows
              (record {
                state = f;
                falls_through = false;
                taken = none;
                acquires = 0;
                exits = true;
                operation = no_operation;
              })
              pc (f.reg 0) (s.reg 0) (ground arith) (c.reg 0))
      ]

call-Covers :
    (f : Flow) (s : State) (k : Kind) (v : Value)
    → Covers f s
    → Allows k v
    → Covers (record f { reg = clobber (store f.reg 0 k) }) (after_call s v)
call-Covers f s k v c h = record {
  reached = c.reached;
  reg = λ r. elim (Bool-cases (leb 1 r && leb r 5)) [
    | inl e ↦ rw e refl
    | inr e ↦ rw e (store-Allows f.reg s.reg 0 k v c.reg h r)
  ];
  spill = c.spill;
}

answers-Allows : (o : Option ℕ) → Allows handle_or_zero (answers o)
answers-Allows none = refl
answers-Allows (some a) = refl

acquire-Agrees :
    (a : Answer) (pc : ℕ) (f : Flow) (s : State) (k : Kind) (v : Value)
    → Covers f s
    → is_scalar k ≡ true
    → Allows k v
    → Agrees (Admit.called f handle_or_zero acquire 1) pc (gates acquire v a pc s)
unfolding gates is_scalar nonempty
acquire-Agrees a pc f s k garbage c d h = ground arith
acquire-Agrees a pc f s k (number m) c d h =
    inl (refl, refl, call-Covers f s _ _ c (answers-Allows a.acquired))
acquire-Agrees a pc f s k (token j) c d h = ground arith

-- READ and RELEASE take a handle, and nothing else.
use-Agrees :
    (a : Answer) (pc : ℕ) (f : Flow) (s : State) (k : Kind) (v : Value)
    → Covers f s
    → is_handle k ≡ true
    → Allows k v
    → Agrees (Admit.called f only_scalar read 0) pc (gates read v a pc s)
      × Agrees (Admit.called f only_zero release 0) pc (gates release v a pc s)
unfolding gates is_handle
use-Agrees a pc f s k garbage c d h = ground arith
use-Agrees a pc f s k (number zero) c d h = ground arith
use-Agrees a pc f s k (number (suc m)) c d h = ground arith
use-Agrees a pc f s k (token j) c d h = (
  inl (refl, refl, call-Covers f s _ _ c (number-Allows a.value)),
  inl (refl, refl, call-Covers f s _ _ c refl),
)

pub call-Agrees :
    (op : Operation) (a : Answer) (pc n : ℕ) (f : Flow) (s : State)
    → Covers f s
    → Agrees (transfer_call op n f) pc (gates op (s.reg 1) a pc s)
unfolding transfer_call
call-Agrees no_operation a pc n f s c = tt
call-Agrees acquire a pc n f s c = elim (Bool-cases (not (is_scalar (f.reg 1)) || ltb 2 (n + 1))) [
  | inl e ↦ rw e tt
  | inr e ↦ rw e (acquire-Agrees a pc f s (f.reg 1) (s.reg 1) c (ground arith) (c.reg 1))
]
call-Agrees read a pc n f s c = elim (Bool-cases (not (is_handle (f.reg 1)))) [
  | inl e ↦ rw e tt
  | inr e ↦ rw e (use-Agrees a pc f s (f.reg 1) (s.reg 1) c (ground arith) (c.reg 1)).0
]
call-Agrees release a pc n f s c = elim (Bool-cases (not (is_handle (f.reg 1)))) [
  | inl e ↦ rw e tt
  | inr e ↦ rw e (use-Agrees a pc f s (f.reg 1) (s.reg 1) c (ground arith) (c.reg 1)).1
]
