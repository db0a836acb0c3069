-- ===== src/Reference/Loop.antt =====
-- The rule of the loop of `cbpf_run`: a property that every round hands on to the next PC, or to
-- the label `finish`, holds where the loop stops, and the loop stops.
use mathlib.Core.Path.{subst}
use c_bpf.Base.{
  ℕ, zero, suc, ◌-◌, ◌<◌, ◌≡◌, refl, inl, inr, Option, none, some, List, arith, length, get_elem?,
  get_elem?-lt, Option-cases, ◌⊎◌,
}
use c_bpf.Ir.{Insn}
use c_bpf.Reference.{Machine, Round, on, finish, round, loop}

-- The run has ended, in a state of which `Q` holds.
abbrev pub Returns {ℓ κ} : {A : Type ℓ} → (A → Type κ) → Option A → Type (ℓ ⊔ κ)
Returns {A} Q o = (a : A) × (o ≡ some a) × Q a

-- A round hands `P` on to a later PC, or `Q` to the end.
abbrev pub Hands : (ℕ → Machine → Type 0) → (Machine → Type 0) → ℕ → Round → Type 0
Hands P Q pc (on next m) = (pc < next) × P next m
Hands P Q pc (finish m) = Q m

Round-cases :
    (r : Round) → ((n : ℕ) × (m : Machine) × (r ≡ on n m)) ⊎ ((m : Machine) × (r ≡ finish m))
Round-cases (on n m) = inl (n, m, refl)
Round-cases (finish m) = inr (m, refl)

module _ (P : ℕ → Machine → Type 0) (Q : Machine → Type 0) (p : List Insn)
    (each : (x : Insn) (pc : ℕ) (m : Machine)
      → get_elem? p pc ≡ some x
      → P pc m
      → Hands P Q pc (round x pc m))
    (off : (pc : ℕ) (m : Machine) → get_elem? p pc ≡ none → P pc m → Q m) where
  pub loop_rule : (f pc : ℕ) (m : Machine) → length p - pc < f → P pc m → Returns Q (loop f p pc m)
  unfolding loop
  loop_rule zero pc m h v = absurd (omega arith)
  loop_rule (suc f) pc m h v = elim (Option-cases (get_elem? p pc)) [
    | inl e ↦ (m, rw (e, loop), off pc m e v)
    | inr (x, e) ↦ elim (Round-cases (round x pc m)) [
      | inl (next, m', q) ↦
          let s = subst (Hands P Q pc) q (each x pc m e v) in
          let (r, eq, good) = loop_rule f next m' (omega (arith, get_elem?-lt p pc e)) s.1 in
          (r, rw (e, loop) (rw q eq), good)
      | inr (m', q) ↦ (m', rw (e, loop) (rw q), (subst (Hands P Q pc) q (each x pc m e v)))
    ]
  ]
