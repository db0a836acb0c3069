-- ===== src/GateDemo/Corpus.antt =====
-- src/gate_demo.c: `corpus`, `boundaries` and `main`, over any check of one case. The answer `true`
-- means that something failed.
use c_bpf.Base.{
  ℕ, zero, suc, ◌+◌, ◌-◌, ◌^◌, Bool, false, not, ◌||◌, Option, some, none, List, [], ◌∷◌, ◌==◌,
  flag, if◌then◌else◌, store, pos, negsuc,
}
use c_bpf.Ir.{
  Insn, acquire, copy, spill, reload, read, br_null, return, other, invalid, no_trap, cbpf_regs,
  cbpf_spills, cbpf_max_insns,
}
use c_bpf.Ir
use c_bpf.Demo.{insn}
use c_bpf.Demo.Boundaries.{repeated}
use c_bpf.GateDemo.Cases.{Expectation, expectation, Family, families, Places, build_case}

-- `for (i = first; k more; ++i)`.
unfoldable pub rounds {ℓ} : {S : Type ℓ} → ℕ → ℕ → (ℕ → S → S) → S → S
rounds zero i body s = s
rounds (suc k) i body s = rounds k (i + 1) body (body i s)

unfoldable pub each {ℓ κ} : {A : Type ℓ} {S : Type κ} → List A → (A → S → S) → S → S
each [] body s = s
each (x ∷ xs) body s = each xs body (body x s)

-- The number of a family in the enumeration.
abbrev pub number : Family → ℕ
number Family.valid_ab = 0
number Family.stale_copy = 1
number Family.stale_spill = 2
number Family.repeated_release = 3
number Family.null_branch = 4
number Family.consumed_branch = 5
number Family.overwrite_alias = 6
number Family.exhaustion = 7
number Family.null_read = 8
number Family.null_release = 9

abbrev pub refused_at : ℕ → Expectation
refused_at pc = expectation invalid no_trap pc 0 0 0 0 (pos 0) 0 0 0

-- The nine malformed instructions.
abbrev pub malformed : List Insn
malformed =
    insn (other 99) 0 0 0
    ∷ insn acquire cbpf_regs 0 1
    ∷ insn acquire 0 0 2
    ∷ insn copy 0 cbpf_regs 0
    ∷ insn spill cbpf_spills 0 0
    ∷ insn reload 0 cbpf_spills 0
    ∷ insn read cbpf_regs 0 0
    ∷ insn br_null 0 0 2
    ∷ insn br_null 0 0 4
    ∷ []

-- `p`, with its third instruction.
abbrev pub with_third : Insn → List Insn
with_third x = insn acquire 0 0 1 ∷ insn return 0 0 7 ∷ x ∷ insn return 0 0 9 ∷ []

-- `longest`: two acquisitions, reads, and a return of INT64_MIN.
abbrev pub full64 : List Insn
full64 =
    insn acquire 0 0 1
    ∷ insn acquire 1 0 1
    ∷ repeated (cbpf_max_insns - 3) (insn read 0 0 0)
        ((record { op = return; dst = 0; src = 0; imm = negsuc (2 ^ 63 - 1) }) ∷ [])

module _ {ℓ} {T : Type ℓ} (check : Option (List Insn) → Expectation → T → Bool × T) where
  -- The variables of `corpus`, and the tester's.
  pub record Sweep : Type ℓ where
    pub failed : Bool
    pub permutations : ℕ
    pub family_failures : ℕ → ℕ
    pub tester : T

  -- The body of the loop over the families.
  abbrev pub one_case : Places → Family → Sweep → Sweep
  one_case x f s =
      let built = build_case f x in
      let checked = check (some built.0) built.1 s.tester in
      record {
        failed = s.failed || checked.0;
        permutations = s.permutations;
        family_failures =
            store s.family_failures (number f) (s.family_failures (number f) + flag checked.0);
        tester = checked.1;
      }

  -- The body of the loops over the registers: `continue`, or a permutation with both slots.
  abbrev pub one_permutation : ℕ → ℕ → ℕ → ℕ → Sweep → Sweep
  one_permutation a b c d s =
      let swept =
        rounds cbpf_spills 0
          (λ slot. each families (one_case (record { a = a; b = b; c = c; d = d; slot = slot })))
          (record s { permutations = s.permutations + 1 }) in
      if a == b || a == c || a == d || b == c || b == d || c == d then s else swept

  unfoldable pub corpus : T → Bool × T
  unfolding rounds each build_case
  corpus t =
      let s =
        rounds cbpf_regs 0
          (λ a.
            rounds cbpf_regs 0
              (λ b. rounds cbpf_regs 0 (λ c. rounds cbpf_regs 0 (λ d. one_permutation a b c d))))
          (record { failed = false; permutations = 0; family_failures = λ _. 0; tester = t }) in
      (s.failed || not (s.permutations == 24), s.tester)

  -- `failed |= check_case(...)`.
  abbrev pub and_check : Option (List Insn) → Expectation → Bool × T → Bool × T
  and_check p e (failed, t) = let checked = check p e t in (failed || checked.0, checked.1)

  -- `junk` is what `longest` holds before it is filled.
  unfoldable pub boundaries : Insn → T → Bool × T
  unfolding each
  boundaries junk t =
      let after = each malformed (λ x. and_check (some (with_third x)) (refused_at 2)) (false, t) in
      let after =
        and_check (some (insn acquire 0 0 1 ∷ insn return 0 0 7 ∷ insn read 0 0 0 ∷ []))
          (refused_at 2) after in
      let after = and_check (some []) (refused_at 0) after in
      let after = and_check none (refused_at 0) after in
      let after = and_check (some (repeated (cbpf_max_insns + 1) junk [])) (refused_at 0) after in
      and_check (some full64)
        (expectation Ir.Status.returned no_trap 63 2 61 0 2 (negsuc (2 ^ 63 - 1)) 66 0 3) after

  -- `main` up to its return: `baseline` is the answer of the third part, `cases` and `matched` read
  -- the counters.
  unfoldable pub main : (T → ℕ) → (T → ℕ) → Bool → Insn → T → Bool
  unfolding corpus boundaries
  main cases matched baseline junk t =
      let swept = corpus t in
      let bounded = boundaries junk swept.1 in
      swept.0
      || bounded.0
      || baseline
      || not (cases bounded.1 == 494)
      || not (matched bounded.1 == cases bounded.1)
