-- ===== src/Jit/Joins.antt =====
-- linux/ownership/cbpf_jit.c, `join` and the entries that a round of `admit` writes.
use mathlib.Core.Path.{subst}
use c_bpf.Base.{
  ℕ, zero, suc, ◌+◌, ◌≤◌, ◌<◌, ◌≡◌, ◌≢◌, refl, ◌∙◌, true, false, Option, none, some, ◌==◌, arith,
  Bool-cases, ◌⊎◌, inl, inr,
}
use c_bpf.Jit.{
  Code, mov_x, mov_k, stx_dw, ldx_dw, jeq_k, call, exit, other, BpfInsn, Kind, Flow, union, join,
}
use c_bpf.Jit.Admit.{
  Operation, no_operation, acquire, read, release, Linkage, Transfer, refuse, pass, Passed,
  transfer, transfer_mov_x, transfer_mov_k, transfer_store, transfer_load, transfer_branch,
  branch_by, branch_to, forward, transfer_call, transfer_exit, call_operation, Table, join_at,
  join_taken, record_pass,
}
use c_bpf.Jit.Execution.{Value, garbage, number, token, State, Allows, Covers}

union-Allows : (a b : Kind) (v : Value) → (Allows a v ⊎ Allows b v) → Allows (union a b) v
unfolding union
union-Allows a b garbage (inl h) = ground arith
union-Allows a b garbage (inr h) = ground arith
union-Allows a b (number zero) (inl h) = ground arith
union-Allows a b (number zero) (inr h) = ground arith
union-Allows a b (number (suc n)) (inl h) = ground arith
union-Allows a b (number (suc n)) (inr h) = ground arith
union-Allows a b (token i) (inl h) = ground arith
union-Allows a b (token i) (inr h) = ground arith

-- A join describes what either side describes.
join-Covers : (d f : Flow) (s : State) → (Covers d s ⊎ Covers f s) → Covers (join d f) s
unfolding join
join-Covers d f s (inl c) = rw (c.reached) (record {
  reached = refl;
  reg = λ r. union-Allows (d.reg r) (f.reg r) (s.reg r) (inl (c.reg r));
  spill = union-Allows d.spill f.spill s.spill (inl c.spill);
})
join-Covers d f s (inr c) = elim (Bool-cases d.reached) [
  | inl e ↦ rw e (record {
    reached = refl;
    reg = λ r. union-Allows (d.reg r) (f.reg r) (s.reg r) (inr (c.reg r));
    spill = union-Allows d.spill f.spill s.spill (inr c.spill);
  })
  | inr e ↦ rw e c
]

join_at-Covers :
    (n : ℕ) (f : Flow) (flow : ℕ → Flow) (q : ℕ) (s : State)
    → (Covers (flow q) s ⊎ ((q ≡ n) × Covers f s))
    → Covers (join_at n f flow q) s
unfolding join_at
join_at-Covers n f flow q s h = elim (Bool-cases (q == n)) [
  | inl e ↦
      let same : q ≡ n = ground arith in
      rw e (
        join-Covers (flow n) f s
          (elim h [ inl c ↦ inl (subst (λ k. Covers (flow k) s) same c) | inr (_, c) ↦ inr c ]))
  | inr e ↦
      rw e (elim h [
        | inl c ↦ c
        | inr (t, c) ↦ absurd (let bad : (q == n) ≡ true = ground arith in cc)
      ])
]

join_at-apart : (n : ℕ) (f : Flow) (flow : ℕ → Flow) (q : ℕ) → q ≢ n → join_at n f flow q ≡ flow q
unfolding join_at
join_at-apart n f flow q ne = let e : (q == n) ≡ false = ground arith in rw e

-- A branch goes forward, and stays in the program.
abbrev pub LandsAt : ℕ → ℕ → Option (ℕ × Flow) → Type 0
LandsAt pc len none = Unit
LandsAt pc len (some (n, f)) = (pc < n) × (n < len)

abbrev pub Lands : ℕ → ℕ → Transfer → Type 0
Lands pc len (refuse e) = Unit
Lands pc len (pass r) = LandsAt pc len r.taken

branch_to-Lands :
    (i : BpfInsn) (f : Flow) (pc n len : ℕ) → pc < n → n < len → Lands pc len (branch_to i f n)
unfolding branch_to
branch_to-Lands i f pc n len lo hi = elim (Bool-cases (f.reg i.dst_reg).zero) [
  | inl e ↦ rw e (lo, hi)
  | inr e ↦ rw e tt
]

branch_by-Lands :
    (o : Option ℕ) (i : BpfInsn) (pc len : ℕ) (f : Flow) → Lands pc len (branch_by o i pc len f)
unfolding branch_by
branch_by-Lands none i pc len f = tt
branch_by-Lands (some d) i pc len f = ground (arith, branch_to-Lands i f pc (pc + 1 + d) len)

transfer_call-Lands :
    (op : Operation) (pc len n : ℕ) (f : Flow) → Lands pc len (transfer_call op n f)
unfolding transfer_call
transfer_call-Lands no_operation pc len n f = tt
transfer_call-Lands acquire pc len n f = ground arith
transfer_call-Lands read pc len n f = ground arith
transfer_call-Lands release pc len n f = ground arith

pub transfer-Lands :
    (l : Linkage) (code : Code) (i : BpfInsn) (pc len n : ℕ) (f : Flow)
    → Lands pc len (transfer l code i pc len n f)
unfolding transfer transfer_mov_x transfer_mov_k transfer_store transfer_load transfer_branch
    transfer_exit
transfer-Lands l mov_x i pc len n f = ground arith
transfer-Lands l mov_k i pc len n f = ground arith
transfer-Lands l stx_dw i pc len n f = ground arith
transfer-Lands l ldx_dw i pc len n f = ground arith
transfer-Lands l jeq_k i pc len n f = branch_by-Lands (forward i.off) i pc len f
transfer-Lands l call i pc len n f = transfer_call-Lands (call_operation l i) pc len n f
transfer-Lands l exit i pc len n f = ground arith
transfer-Lands l (other k) i pc len n f = tt

join_taken-Covers :
    (o : Option (ℕ × Flow)) (flow : ℕ → Flow) (q : ℕ) (s : State)
    → (Covers (flow q) s ⊎ ((f : Flow) × (o ≡ some (q, f)) × Covers f s))
    → Covers (join_taken o flow q) s
join_taken-Covers none flow q s (inl c) = c
join_taken-Covers none flow q s (inr (f, e, c)) = cc
join_taken-Covers (some (n, g)) flow q s (inl c) = join_at-Covers n g flow q s (inl c)
join_taken-Covers (some (n, g)) flow q s (inr (f, e, c)) =
    join_at-Covers n g flow q s
      (inr ((let z : q ≡ n = cc in z), subst (λ h. Covers h s) (let z : f ≡ g = cc in z) c))

-- What the pass of an instruction adds to the table: nothing is lost, and both ways on are joined.
pub record_pass-Covers :
    (pc : ℕ) (r : Passed) (t : Table) (q : ℕ) (s : State)
    → (Covers (t.flow q) s
        ⊎ (((f : Flow) × (r.taken ≡ some (q, f)) × Covers f s)
            ⊎ ((q ≡ pc + 1) × (r.falls_through ≡ true) × Covers r.state s)))
    → Covers ((record_pass pc r t).flow q) s
unfolding record_pass
record_pass-Covers pc r t q s (inr (inr (e, d, c))) =
    rw d (join_at-Covers (pc + 1) r.state (join_taken r.taken t.flow) q s (inr (e, c)))
record_pass-Covers pc r t q s (inr (inl h)) = elim (Bool-cases r.falls_through) [
  | inl d ↦ rw d (
      join_at-Covers (pc + 1) r.state (join_taken r.taken t.flow) q s
        (inl (join_taken-Covers r.taken t.flow q s (inr h))))
  | inr d ↦ rw d (join_taken-Covers r.taken t.flow q s (inr h))
]
record_pass-Covers pc r t q s (inl h) = elim (Bool-cases r.falls_through) [
  | inl d ↦ rw d (
      join_at-Covers (pc + 1) r.state (join_taken r.taken t.flow) q s
        (inl (join_taken-Covers r.taken t.flow q s (inl h))))
  | inr d ↦ rw d (join_taken-Covers r.taken t.flow q s (inl h))
]

join_taken-apart :
    (o : Option (ℕ × Flow)) (flow : ℕ → Flow) (pc len q : ℕ)
    → LandsAt pc len o
    → q ≤ pc
    → join_taken o flow q ≡ flow q
join_taken-apart none flow pc len q h le = refl
join_taken-apart (some (n, g)) flow pc len q h le =
    join_at-apart n g flow q (λ e. omega (arith, e, h.0))

-- The entries up to the present one are final.
pub record_pass-apart :
    (pc : ℕ) (r : Passed) (t : Table) (len q : ℕ)
    → LandsAt pc len r.taken
    → q ≤ pc
    → (record_pass pc r t).flow q ≡ t.flow q
unfolding record_pass
record_pass-apart pc r t len q h le = elim (Bool-cases r.falls_through) [
  | inl d ↦ rw d (
      join_at-apart (pc + 1) r.state (join_taken r.taken t.flow) q (λ e. omega (arith, e))
      ∙ join_taken-apart r.taken t.flow pc len q h le)
  | inr d ↦ rw d (join_taken-apart r.taken t.flow pc len q h le)
]
