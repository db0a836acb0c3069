-- ===== src/Jit/Acquisitions.antt =====
-- linux/ownership/cbpf_jit.c, `admit`: the calls that acquire.
use mathlib.Core.Path.{subst}
use c_bpf.Base.{
  ℕ, ◌+◌, ◌≤◌, ◌<◌, ◌≡◌, refl, ap, Bool, true, false, Option, none, some, List, [], ◌∷◌, flag,
  length, arith,
}
use c_bpf.Jit.{Code, mov_x, mov_k, stx_dw, ldx_dw, jeq_k, call, exit, other, BpfInsn, Flow}
use c_bpf.Jit.Admit.{
  Operation, no_operation, acquire, read, release, Linkage, Transfer, refuse, pass, transfer,
  transfer_mov_x, transfer_mov_k, transfer_store, transfer_load, transfer_branch, branch_by,
  branch_to, forward, transfer_call, transfer_exit, is_call, call_operation, Table, record_pass,
  admit_loop, initial, admit, admitted,
}
use c_bpf.Jit.Soundness.{admit_loop_inv, admit_inv}

abbrev is_acquire : Operation → Bool
is_acquire acquire = true
is_acquire _ = false

-- The calls of the program that reach the function that acquires.
abbrev pub acquires : Linkage → List BpfInsn → ℕ
acquires l [] = 0
acquires l (i ∷ is) = flag (is_acquire (call_operation l i)) + acquires l is

-- What a pass counts.
abbrev Counts : ℕ → Operation → Transfer → Type 0
Counts n op (refuse e) = Unit
Counts n op (pass r) = (r.acquires ≡ flag (is_acquire op)) × (n ≤ 2 → n + r.acquires ≤ 2)

other_operation :
    (l : Linkage) (i : BpfInsn) → is_call i.code ≡ false → call_operation l i ≡ no_operation
unfolding call_operation
other_operation l i e = rw e refl

branch_by-Counts :
    (o : Option ℕ) (i : BpfInsn) (pc len n : ℕ) (f : Flow)
    → Counts n no_operation (branch_by o i pc len f)
unfolding branch_by branch_to
branch_by-Counts none i pc len n f = tt
branch_by-Counts (some d) i pc len n f = ground arith

transfer_call-Counts : (op : Operation) (n : ℕ) (f : Flow) → Counts n op (transfer_call op n f)
unfolding transfer_call
transfer_call-Counts no_operation n f = tt
transfer_call-Counts acquire n f = ground arith
transfer_call-Counts read n f = ground arith
transfer_call-Counts release n f = ground arith

transfer-Counts :
    (l : Linkage) (code : Code) (i : BpfInsn) (pc len n : ℕ) (f : Flow)
    → i.code ≡ code
    → Counts n (call_operation l i) (transfer l code i pc len n f)
unfolding transfer transfer_mov_x transfer_mov_k transfer_store transfer_load transfer_branch
    transfer_exit is_call
transfer-Counts l mov_x i pc len n f e = rw (other_operation l i (ap is_call e)) (ground arith)
transfer-Counts l mov_k i pc len n f e = rw (other_operation l i (ap is_call e)) (ground arith)
transfer-Counts l stx_dw i pc len n f e = rw (other_operation l i (ap is_call e)) (ground arith)
transfer-Counts l ldx_dw i pc len n f e = rw (other_operation l i (ap is_call e)) (ground arith)
transfer-Counts l jeq_k i pc len n f e =
    rw (other_operation l i (ap is_call e)) (branch_by-Counts (forward i.off) i pc len n f)
transfer-Counts l call i pc len n f e = transfer_call-Counts (call_operation l i) n f
transfer-Counts l exit i pc len n f e = rw (other_operation l i (ap is_call e)) (ground arith)
transfer-Counts l (other k) i pc len n f e = tt

admit_loop-Counts :
    (l : Linkage) (is : List BpfInsn) (pc len : ℕ) (t T : Table)
    → admit_loop l is pc len t ≡ admitted T
    → t.acquisitions ≤ 2
    → (T.acquisitions ≡ t.acquisitions + acquires l is) × (T.acquisitions ≤ 2)
unfolding admit_loop
admit_loop-Counts l [] pc len t T e h =
    let same : t ≡ T = (let z : t ≡ T = cc in z) in
    subst (λ (x : Table). (x.acquisitions ≡ t.acquisitions + 0) × (x.acquisitions ≤ 2)) same
      (omega arith, h)
admit_loop-Counts l (i ∷ is) pc len t T e h =
    let (r, passes, rest) = admit_loop_inv l i is pc len t T e in
    let c : Counts t.acquisitions (call_operation l i) (pass r) =
      subst (Counts t.acquisitions (call_operation l i)) passes
        (transfer-Counts l i.code i pc len t.acquisitions (t.flow pc) refl) in
    let counted : (record_pass pc r t).acquisitions ≡ t.acquisitions + r.acquires =
      unfold record_pass in refl in
    let v =
      admit_loop-Counts l is (pc + 1) len (record_pass pc r t) T rest
        (omega (arith, counted, c.1 h)) in
    (omega (arith, v.0, counted, c.0), v.1)

-- A program that `admit` accepts has one call or two that acquire.
pub admit-acquires :
    (l : Linkage) (p : List BpfInsn) (T : Table)
    → admit l p ≡ admitted T
    → (0 < acquires l p) × (acquires l p ≤ 2)
unfolding initial
admit-acquires l p T e =
    let (looped, _, positive) = admit_inv l p T e in
    let v = admit_loop-Counts l p 0 (length p) initial T looped (omega arith) in
    (omega (arith, v.0, positive), omega (arith, v.0, v.1))
