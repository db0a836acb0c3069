-- ===== src/KfuncGuest/Session/Accounting.antt =====
-- linux/kfunc/guest.c: what a session that passes has counted.
use mathlib.Core.Path.{subst}
use c_bpf.Base.{
  ℕ, ◌≡◌, refl, ap, Bool, true, false, not, ◌&&◌, Option, none, some, List, [], ◌∷◌, arith, ◌==◌,
  if◌then◌else◌, ℤ, negsuc,
}
use c_bpf.KfuncGuest.{Program}
use c_bpf.KfuncGuest.Programs.{
  Ids, Rejection, stale_copy, stale_spill, double_release, no_null, leak, valid_ab, valid_null,
  rejected_program,
}
use c_bpf.KfuncGuest.Session.{
  Counters, Totals, Kernel, balanced, delta, credit_valid, credit_rejected, and_then, require,
  attempt, load_program, jited_length, repeat_runs, balanced_snapshot, run_valid,
  attributable_rejection, refused, check_rejected, spills, valid_cases, no_totals, agrees, main,
}

-- What holds of the value, where there is one.
abbrev pub Yields {ℓ κ} : {A : Type ℓ} → (A → Type κ) → Option A → Type κ
Yields P none = Unit
Yields P (some x) = P x

and_then-Yields {ℓ κ μ ν} :
    {A : Type ℓ} {B : Type κ} (P : A → Type μ) (Q : B → Type ν) (o : Option A) (f : A → Option B)
    → Yields P o
    → ((x : A) → P x → Yields Q (f x))
    → Yields Q (and_then o f)
unfolding and_then
and_then-Yields P Q none f h k = tt
and_then-Yields P Q (some x) f h k = k x h

-- A step that may fail, of which nothing is kept but that it did not.
passing-Yields {ℓ κ μ} :
    {A : Type ℓ} {B : Type κ} (Q : B → Type μ) (o : Option A) (f : A → Option B)
    → ((x : A) → Yields Q (f x))
    → Yields Q (and_then o f)
unfolding and_then
passing-Yields Q none f k = tt
passing-Yields Q (some x) f k = k x

require-Yields {ℓ κ} :
    {A : Type ℓ} (Q : A → Type κ) (b : Bool) (x : A) → (b ≡ true → Q x) → Yields Q (require b x)
unfolding require
require-Yields Q true x h = h refl
require-Yields Q false x h = tt

-- What a loop adds whose every step adds by `credit`.
unfoldable credits : {A : Type 0} → (A → Totals → Totals) → List A → Totals → Totals
credits credit [] t = t
credits credit (a ∷ xs) t = credits credit xs (credit a t)

module _ (k : Kernel) where
  -- The totals of a state.
  abbrev Counted : Totals → k.State × Totals → Type 0
  Counted t x = x.1 ≡ t

  run_valid-Counted :
      (p : Program) (expected acquisitions reads repeats : ℕ) (x : k.State × Totals)
      → Yields
          (Counted (credit_valid acquisitions reads repeats x.1))
          (run_valid k p expected acquisitions reads repeats x)
  unfolding run_valid
  run_valid-Counted p expected acquisitions reads repeats (s, t) =
      let Q = Counted (credit_valid acquisitions reads repeats t) in
      let loaded = load_program k p s in
      passing-Yields Q (balanced_snapshot k s) _ λ before. passing-Yields Q loaded.0 _ λ fd.
        passing-Yields Q (jited_length k fd loaded.1) _ λ n.
          passing-Yields Q (repeat_runs k repeats fd expected acquisitions reads (before, loaded.1))
            _ (λ ran. refl)

  check_rejected-Counted :
      (ids : Ids) (kind : Rejection) (x : k.State × Totals)
      → Yields (Counted (credit_rejected x.1)) (check_rejected k ids kind x)
  unfolding check_rejected
  check_rejected-Counted ids kind (s, t) =
      let Q = Counted (credit_rejected t) in
      let p = rejected_program ids kind in
      let loaded = load_program k p s in
      passing-Yields Q (balanced_snapshot k s) _ λ before.
        passing-Yields Q (refused k loaded.0) _ λ _.
          passing-Yields Q (require (not p.invalid && attributable_rejection k kind loaded.1) true)
            _
            λ _. passing-Yields Q (k.snapshot loaded.1) _ λ after.
              require-Yields Q (delta before after 0 0) (loaded.1, credit_rejected t) (λ _. refl)

  -- A step from known totals.
  step-Counted :
      (step : k.State × Totals → Option (k.State × Totals)) (credit : Totals → Totals) (t : Totals)
      → ((x : k.State × Totals) → Yields (Counted (credit x.1)) (step x))
      → (x : k.State × Totals) → Counted t x
      → Yields (Counted (credit t)) (step x)
  step-Counted step credit t h x e = subst (λ u. Yields (Counted (credit u)) (step x)) e (h x)

  attempt-Counted :
      {A : Type 0} (xs : List A) (body : A → k.State × Totals → Option (k.State × Totals))
      (credit : A → Totals → Totals)
      → ((a : A) (x : k.State × Totals) → Yields (Counted (credit a x.1)) (body a x))
      → (x : k.State × Totals) → Yields (Counted (credits credit xs x.1)) (attempt xs body x)
  unfolding attempt credits
  attempt-Counted [] body credit h x = refl
  attempt-Counted (a ∷ xs) body credit h x =
      and_then-Yields (Counted (credit a x.1)) (Counted (credits credit xs (credit a x.1)))
        (body a x) (λ y. attempt xs body y) (h a x)
        (step-Counted (attempt xs body) (credits credit xs) (credit a x.1)
          (attempt-Counted xs body credit h))

  -- What the valid cases add.
  abbrev credit_case : Bool → Totals → Totals
  credit_case null_b = credit_valid (if null_b then 1 else 2) (if null_b then 0 else 1) 1

  abbrev credit_cases : Totals → Totals
  credit_cases =
      credits {A = ℕ}
        (λ _. credits {A = ℤ} (λ _. credits credit_case (false ∷ true ∷ [])) (spills k))
        (6 ∷ 7 ∷ [])

  balanced_snapshot-balanced :
      (s : k.State) → Yields (λ (c : Counters). balanced c ≡ true) (balanced_snapshot k s)
  unfolding balanced_snapshot
  balanced_snapshot-balanced s =
      passing-Yields (λ (c : Counters). balanced c ≡ true) (k.snapshot s) _
        λ c. require-Yields (λ (c : Counters). balanced c ≡ true) (balanced c) c (λ h. h)

  valid_cases-Counted :
      (ids : Ids) (x : k.State × Totals) → Yields (Counted (credit_cases x.1)) (valid_cases k ids x)
  unfolding valid_cases
  valid_cases-Counted ids x =
      attempt-Counted (6 ∷ 7 ∷ []) _
        (λ _. credits {A = ℤ} (λ _. credits credit_case (false ∷ true ∷ [])) (spills k))
        (λ a.
          attempt-Counted (spills k) _ (λ _. credits credit_case (false ∷ true ∷ []))
            (λ spill. attempt-Counted (false ∷ true ∷ []) _ credit_case (λ null_b.
              run_valid-Counted (valid_ab ids a spill null_b) (if null_b then 7 else 42)
                (if null_b then 1 else 2) (if null_b then 0 else 1) 1)))
        x

  -- The counts of a session that passes.
  pub record IsPass (x : Counters × Totals) : Type 0 where
    pub acquisitions : x.0.acquisitions ≡ 82
    pub releases : x.0.releases ≡ 82
    pub reads : x.0.reads ≡ 38
    pub live : x.0.live ≡ 0
    pub object_refs : x.0.object_refs ≡ 1
    pub executions : x.1.executions ≡ 45

  passed :
      (c : Counters) (t : Totals)
      → agrees k c t ≡ true
      → balanced c ≡ true
      → t.acquisitions ≡ 82
      → t.reads ≡ 38
      → IsPass (c, t)
  unfolding balanced
  passed c t a b p q = record {
    acquisitions = ground (arith, p);
    releases = ground (arith, p);
    reads = ground (arith, q);
    live = ground arith;
    object_refs = ground arith;
    executions = ground arith;
  }

  -- Whatever the kernel does, a session of the guest that passes ends with 82 acquisitions, as many
  -- releases, 38 reads, no live cell and the object's one reference, after 45 executions.
  pub main-IsPass : (ids : Ids) (s : k.State) → Yields IsPass (main k ids s)
  unfolding main credits credit_valid credit_rejected
  main-IsPass ids s = passing-Yields IsPass (balanced_snapshot k s) _ λ first.
      passing-Yields IsPass (require (first.acquisitions == 0 && first.reads == 0) true) _ λ _.
        and_then-Yields (Counted t1) IsPass (valid_cases k ids (s, no_totals k)) _
          (valid_cases-Counted ids (s, no_totals k))
          λ x e.
            and_then-Yields (Counted t2) IsPass (run_valid k (valid_null ids) 0 0 0 1 x) _
              (step-Counted (run_valid k (valid_null ids) 0 0 0 1) (credit_valid 0 0 1) t1
                (run_valid-Counted (valid_null ids) 0 0 0 1) x e)
              λ x e.
                and_then-Yields (Counted t3) IsPass
                  (run_valid k (valid_ab ids 7 (negsuc 15) false) 42 2 1 32 x) _
                  (step-Counted (run_valid k (valid_ab ids 7 (negsuc 15) false) 42 2 1 32)
                    (credit_valid 2 1 32) t2
                    (run_valid-Counted (valid_ab ids 7 (negsuc 15) false) 42 2 1 32) x e)
                  λ x e.
                    and_then-Yields (Counted t4) IsPass (attempt probes (check_rejected k ids) x) _
                      (step-Counted (attempt probes (check_rejected k ids))
                        (credits (λ _. credit_rejected) probes) t3
                        (attempt-Counted probes (check_rejected k ids) (λ _. credit_rejected)
                          (check_rejected-Counted ids))
                        x e)
                      λ x e.
                        and_then-Yields (λ (c : Counters). balanced c ≡ true) IsPass
                          (balanced_snapshot k x.0) _ (balanced_snapshot-balanced x.0)
                          λ final b.
                            require-Yields IsPass (agrees k final x.1) (final, x.1)
                              (λ a.
                                passed final x.1 a b (ap (λ (t : Totals). t.acquisitions) e)
                                  (ap (λ (t : Totals). t.reads) e))
    where
      probes : List Rejection
      probes = stale_copy ∷ stale_spill ∷ double_release ∷ no_null ∷ leak ∷ []

      t1 : Totals
      t1 = credit_cases (no_totals k)

      t2 : Totals
      t2 = credit_valid 0 0 1 t1

      t3 : Totals
      t3 = credit_valid 2 1 32 t2

      t4 : Totals
      t4 = credits (λ _. credit_rejected) probes t3
