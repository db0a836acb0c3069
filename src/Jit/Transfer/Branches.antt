-- ===== src/Jit/Transfer/Branches.antt =====
-- linux/ownership/cbpf_jit.c, `admit`: the branch.
use c_bpf.Base.{
  ℕ, zero, suc, ◌+◌, ◌≡◌, refl, sym, ap, ◌∙◌, true, false, not, ◌||◌, Option, none, some, ◌==◌,
  store, ℤ, pos, negsuc, arith, leb, ltb, Bool-cases, inl, inr,
}
use mathlib.Core.Path.{subst}
use c_bpf.Jit.{BpfInsn, Flow, nonempty, is_defined, only_zero}
use c_bpf.Jit.Admit
use c_bpf.Jit.Admit.{
  Operation, no_operation, acquire, read, release, Linkage, call_operation, Transfer, refuse, pass,
  Passed, transfer, transfer_mov_x, transfer_mov_k, transfer_store, transfer_load, transfer_branch,
  branch_by, branch_to, forward, transfer_call, transfer_exit, clobber,
}
use c_bpf.Jit.Execution.{Value, garbage, number, token, State, jumps, Allows, Covers}
use c_bpf.Jit.Transfer.Agreement.{Agrees}

-- A branch on ZERO and HANDLE: NULL takes it, and a handle falls through.
branch_to-Agrees :
    (i : BpfInsn) (pc d : ℕ) (f : Flow) (s : State)
    → i.off ≡ pos d
    → i.imm ≡ pos 0
    → (f.reg i.dst_reg).uninit ≡ false
    → (f.reg i.dst_reg).scalar ≡ false
    → Covers f s
    → (v : Value) → s.reg i.dst_reg ≡ v
    → Agrees (branch_to i f (pc + 1 + d)) pc (jumps v i pc s)
unfolding branch_to jumps nonempty
branch_to-Agrees i pc d f s o z u n c garbage e =
    let h : (f.reg i.dst_reg).uninit ≡ true =
      subst (Allows (f.reg i.dst_reg)) e (c.reg i.dst_reg) in
    absurd (cc (h, u))
branch_to-Agrees i pc d f s o z u n c (number zero) e =
    let h : ((f.reg i.dst_reg).zero || (f.reg i.dst_reg).scalar) ≡ true =
      subst (Allows (f.reg i.dst_reg)) e (c.reg i.dst_reg) in
    let zero_bit : (f.reg i.dst_reg).zero ≡ true = ground arith in
    rw (z, o, zero_bit)
      (inr (_, refl, record { reached = c.reached; reg = kept (c.reg) e; spill = c.spill }))
  where
    kept :
        ((j : ℕ) → Allows (f.reg j) (s.reg j))
        → s.reg i.dst_reg ≡ number 0
        → (j : ℕ) → Allows (store f.reg i.dst_reg only_zero j) (s.reg j)
    kept h q j = elim (Bool-cases (j == i.dst_reg)) [
      | inl t ↦
          let same : number 0 ≡ s.reg j =
            (let w : j ≡ i.dst_reg = ground arith in sym (ap s.reg w ∙ q)) in
          rw t (subst (Allows only_zero) same refl)
      | inr t ↦ rw t (h j)
    ]
branch_to-Agrees i pc d f s o z u n c (number (suc m)) e =
    let h : (f.reg i.dst_reg).scalar ≡ true =
      subst (Allows (f.reg i.dst_reg)) e (c.reg i.dst_reg) in
    absurd (cc (h, n))
branch_to-Agrees i pc d f s o z u n c (token a) e =
    let h : (f.reg i.dst_reg).handle ≡ true =
      subst (Allows (f.reg i.dst_reg)) e (c.reg i.dst_reg) in
    inl (refl, ground arith, record { reached = c.reached; reg = kept c.reg h e; spill = c.spill })
  where
    kept :
        ((j : ℕ) → Allows (f.reg j) (s.reg j))
        → (f.reg i.dst_reg).handle ≡ true
        → s.reg i.dst_reg ≡ token a
        → (j : ℕ)
        → Allows (store f.reg i.dst_reg (record (f.reg i.dst_reg) { zero = false }) j) (s.reg j)
    kept h k q j = elim (Bool-cases (j == i.dst_reg)) [
      | inl t ↦
          let same : token a ≡ s.reg j =
            (let w : j ≡ i.dst_reg = ground arith in sym (ap s.reg w ∙ q)) in
          rw t (subst (Allows (record (f.reg i.dst_reg) { zero = false })) same k)
      | inr t ↦ rw t (h j)
    ]

forward_inv : (v : ℤ) (d : ℕ) → forward v ≡ some d → v ≡ pos d
unfolding forward
forward_inv (pos zero) d h = cc
forward_inv (pos (suc n)) d h = cc
forward_inv (negsuc n) d h = cc

nonzero_inv : (v : ℤ) → Admit.nonzero v ≡ false → v ≡ pos 0
nonzero_inv (pos n) h = let z : n ≡ 0 = ground arith in ap pos z
nonzero_inv (negsuc n) h = ground arith

pub branch_by-Agrees :
    (o : Option ℕ) (i : BpfInsn) (pc len : ℕ) (f : Flow) (s : State)
    → forward i.off ≡ o
    → Covers f s
    → Agrees (branch_by o i pc len f) pc (jumps (s.reg i.dst_reg) i pc s)
unfolding branch_by
branch_by-Agrees none i pc len f s e c = tt
branch_by-Agrees (some d) i pc len f s e c =
    elim (Bool-cases (
      ltb 9 i.dst_reg
      || not (i.src_reg == 0)
      || Admit.nonzero i.imm
      || leb len (pc + 1 + d)
      || not (is_defined (f.reg i.dst_reg))
      || (f.reg i.dst_reg).uninit
      || (f.reg i.dst_reg).scalar)) [
        | inl q ↦ rw q tt
        | inr q ↦ rw q (
            branch_to-Agrees i pc d f s (forward_inv i.off d e) (nonzero_inv i.imm (ground arith))
              (ground arith) (ground arith) c _ refl)
      ]
