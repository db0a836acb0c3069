-- ===== src/GateDemo/Related.antt =====
-- src/gate_demo.c: two checks that answer alike make `corpus`, `boundaries` and `main` answer alike.
use c_bpf.Base.{
  ℕ, zero, suc, ◌+◌, ◌≡◌, refl, ap, Bool, false, not, ◌||◌, Option, some, List, [], ◌∷◌, ◌==◌,
  Bool-cases, inl, inr,
}
use c_bpf.Ir.{Insn, cbpf_spills, cbpf_regs}
use c_bpf.GateDemo.Cases.{Expectation, Family, families, Places, build_case}
use c_bpf.GateDemo.Corpus.{
  rounds, each, malformed, Sweep, one_case, one_permutation, corpus, and_check, boundaries, main,
  with_third, refused_at,
}

module _ {ℓ κ μ} {S : Type ℓ} {S' : Type κ} (R : S → S' → Type μ) where
  rounds-Related :
      (k i : ℕ) (body : ℕ → S → S) (body' : ℕ → S' → S')
      → ((i : ℕ) (s : S) (s' : S') → R s s' → R (body i s) (body' i s'))
      → (s : S) (s' : S') → R s s'
      → R (rounds k i body s) (rounds k i body' s')
  unfolding rounds
  rounds-Related zero i body body' h s s' r = r
  rounds-Related (suc k) i body body' h s s' r =
      rounds-Related k (i + 1) body body' h _ _ (h i s s' r)

  each-Related {ι} :
      {A : Type ι} (xs : List A) (body : A → S → S) (body' : A → S' → S')
      → ((x : A) (s : S) (s' : S') → R s s' → R (body x s) (body' x s'))
      → (s : S) (s' : S') → R s s'
      → R (each xs body s) (each xs body' s')
  unfolding each
  each-Related [] body body' h s s' r = r
  each-Related (x ∷ xs) body body' h s s' r = each-Related xs body body' h _ _ (h x s s' r)

module _ {ℓ κ μ} {T : Type ℓ} {T' : Type κ} (R : T → T' → Type μ) where
  -- The same answer, and related counters.
  abbrev pub Same : Bool × T → Bool × T' → Type μ
  Same x y = (x.0 ≡ y.0) × R x.1 y.1

  module _ (check : Option (List Insn) → Expectation → T → Bool × T)
      (check' : Option (List Insn) → Expectation → T' → Bool × T')
      (alike : (p : Option (List Insn)) (e : Expectation) (t : T) (t' : T')
        → R t t'
        → Same (check p e t) (check' p e t')) where
    record SameSweep (s : Sweep check) (s' : Sweep check') : Type μ where
      pub failed : s.failed ≡ s'.failed
      pub permutations : s.permutations ≡ s'.permutations
      pub tester : R s.tester s'.tester

    one_case-Same :
        (x : Places) (f : Family) (s : Sweep check) (s' : Sweep check')
        → SameSweep s s'
        → SameSweep (one_case check x f s) (one_case check' x f s')
    one_case-Same x f s s' h =
        let built = build_case f x in
        let (q, r) = alike (some built.0) built.1 s.tester s'.tester h.tester in
        record { failed = rw (h.failed, q) refl; permutations = h.permutations; tester = r }

    one_permutation-Same :
        (a b c d : ℕ) (s : Sweep check) (s' : Sweep check')
        → SameSweep s s'
        → SameSweep (one_permutation check a b c d s) (one_permutation check' a b c d s')
    one_permutation-Same a b c d s s' h =
        elim (Bool-cases (a == b || a == c || a == d || b == c || b == d || c == d)) [
          | inl e ↦ rw e h
          | inr e ↦ rw e (
              rounds-Related SameSweep cbpf_spills 0 _ _
                (λ slot.
                  each-Related SameSweep families _ _
                    (one_case-Same (record { a = a; b = b; c = c; d = d; slot = slot })))
                _ _
                record {
                  failed = h.failed;
                  permutations = ap (λ n. n + 1) h.permutations;
                  tester = h.tester;
                })
        ]

    corpus-Same : (t : T) (t' : T') → R t t' → Same (corpus check t) (corpus check' t')
    unfolding corpus
    corpus-Same t t' r =
        let s =
          rounds-Related SameSweep cbpf_regs 0 _ _
            (λ a. rounds-Related SameSweep cbpf_regs 0 _ _ (λ b.
              rounds-Related SameSweep cbpf_regs 0 _ _ (λ c.
                rounds-Related SameSweep cbpf_regs 0 _ _ (λ d. one_permutation-Same a b c d))))
            (record { failed = false; permutations = 0; family_failures = λ _. 0; tester = t })
            (record { failed = false; permutations = 0; family_failures = λ _. 0; tester = t' })
            (record { failed = refl; permutations = refl; tester = r }) in
        (swept s.failed s.permutations, s.tester)
      where
        swept :
            {f f' : Bool} {n n' : ℕ}
            → f ≡ f'
            → n ≡ n'
            → (f || not (n == 24)) ≡ (f' || not (n' == 24))
        swept p q = rw (p, q) refl

    and_check-Same :
        (p : Option (List Insn)) (e : Expectation) (x : Bool × T) (y : Bool × T')
        → Same x y
        → Same (and_check check p e x) (and_check check' p e y)
    and_check-Same p e (f, t) (f', t') (q, r) =
        let (q', r') = alike p e t t' r in (rw (q, q') refl, r')

    boundaries-Same :
        (junk : Insn) (t : T) (t' : T')
        → R t t'
        → Same (boundaries check junk t) (boundaries check' junk t')
    unfolding boundaries
    boundaries-Same junk t t' r = and_check-Same _ _ _ _ (
        and_check-Same _ _ _ _ (
          and_check-Same _ _ _ _ (
            and_check-Same _ _ _ _ (
              and_check-Same _ _ _ _ (
                each-Related Same malformed _ _
                  (λ x. and_check-Same (some (with_third x)) (refused_at 2)) (false, t) (false, t')
                  (refl, r))))))

    pub main-Same :
        (cases matched : T → ℕ) (cases' matched' : T' → ℕ)
        → ((t : T) (t' : T') → R t t' → (cases t ≡ cases' t') × (matched t ≡ matched' t'))
        → (baseline : Bool) (junk : Insn) (t : T) (t' : T') → R t t'
        → main check cases matched baseline junk t ≡ main check' cases' matched' baseline junk t'
    unfolding main
    main-Same cases matched cases' matched' counted baseline junk t t' r =
        let (f, r') = corpus-Same t t' r in
        let (g, r'') = boundaries-Same junk _ _ r' in let (k, m) = counted _ _ r'' in judged f g k m
      where
        judged :
            {f f' g g' : Bool} {k k' m m' : ℕ}
            → f ≡ f'
            → g ≡ g'
            → k ≡ k'
            → m ≡ m'
            → (f || g || baseline || not (k == 494) || not (m == k))
              ≡ (f' || g' || baseline || not (k' == 494) || not (m' == k'))
        judged p q u v = rw (p, q, u, v) refl
