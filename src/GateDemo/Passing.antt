-- ===== src/GateDemo/Passing.antt =====
-- src/gate_demo.c: the demo passes on every faithful build.
use mathlib.Core.Option
use c_bpf.Base.{
  ℕ, ◌+◌, ◌<◌, ◌≡◌, ◌≢◌, refl, ◌∙◌, inl, inr, ap, sym, arith, Bool, true, false, not, Option, some,
  List, flag,
}
use c_bpf.Ir.{Insn}
use c_bpf.Ir.Validate.{cbpf_validate, insn_ok}
use c_bpf.Demo.{check}
use c_bpf.Reference.{cbpf_run, run_list, finish_run, loop, program, round, start, clean, clean_cell}
use c_bpf.Reference.Run.{run-IsSettled}
use c_bpf.Gate.{gate_run}
use c_bpf.Gate.Platform.{Build, IsFaithful}
use c_bpf.Gate.Metering.{expected_metrics}
use c_bpf.Gate.Metering.Report.{gate_run-expected_metrics}
use c_bpf.GateDemo.{
  expected_result, Tester, compare, compare_runs, check_case, direct_object_baseline,
}
use c_bpf.GateDemo.Agreement.{Steady, compare-expected}
use c_bpf.GateDemo.Related.{Same, main-Same}
use c_bpf.GateDemo.Cases.{Expectation}
use c_bpf.GateDemo.Corpus.{main}

-- The reference interpreter alone against the expectation, with a count of cases and of matches.
abbrev reference_check : Option (List Insn) → Expectation → ℕ × ℕ → Bool × (ℕ × ℕ)
reference_check p e (cases, matched) =
    let good = check (λ r. expected_result r e) (cbpf_run p) in
    (not good, (cases + 1, matched + flag good))

abbrev pub zeroed : Tester
zeroed = record { cases = 0; matched = 0; cell_bytes = 0; handle_bytes = 0 }

reference_passes :
    (junk : Insn) → main reference_check (λ t. t.0) (λ t. t.1) false junk (0, 0) ≡ false
unfolding main check cbpf_run cbpf_validate insn_ok run_list finish_run loop program round start
    clean clean_cell expected_result
reference_passes junk = refl

-- The counters agree, and the static sizes are unset or the build's.
abbrev Counted : Build → Tester → ℕ × ℕ → Type 0
Counted b t n = (t.cases ≡ n.0) × (t.matched ≡ n.1) × Steady b t

module _ (b : Build) (faithful : IsFaithful b)
    (total : (i : ℕ) → i < 2 → (v : b.Handle) × (b.prepare_view i ≡ some v))
    (sized : b.cell_bytes ≢ 0) where
  check_case-Same :
      (p : Option (List Insn)) (e : Expectation) (t : Tester) (n : ℕ × ℕ)
      → Counted b t n
      → Same (Counted b) (check_case b b.handle_bytes p e t) (reference_check p e n)
  unfolding check_case check
  check_case-Same p e t n (k, m, steady) =
      let (r, eq, settled) = run-IsSettled p in
      let q : compare_runs b b.handle_bytes (cbpf_run p) (gate_run b p) e t
          ≡ compare b b.handle_bytes r (r, expected_metrics b r) e t =
        ap (λ o. compare_runs b b.handle_bytes o (gate_run b p) e t) eq
        ∙ ap (λ o. compare_runs b b.handle_bytes (some r) o e t)
            (gate_run-expected_metrics b faithful total p
              ∙ ap (Option.map (λ r. (r, expected_metrics b r))) eq)
        ∙ refl in
      let checked =
        q ∙ compare-expected b sized r e t (omega (arith, settled.events, settled.room)) steady in
      let meets : check (λ r. expected_result r e) (cbpf_run p) ≡ expected_result r e =
        ap (check (λ r. expected_result r e)) eq in
      (
        ap (λ x. x.0) checked ∙ sym (ap not meets),
        (
          ap (λ x. x.1.cases) checked ∙ ap (λ i. i + 1) k,
          ap (λ x. x.1.matched) checked
              ∙ ap (λ i. i + flag (expected_result r e)) m
              ∙ sym (ap (λ g. n.1 + flag g) meets),
          inr (ap (λ x. x.1.cell_bytes) checked, ap (λ x. x.1.handle_bytes) checked),
        ),
      )

  start-Counted : Counted b zeroed (0, 0)
  start-Counted = (refl, refl, inl refl)

  -- On every faithful build that prepares a view of both cells, whose cells have a size and whose
  -- handles are as wide as a pointer, `main` of the gate demo answers that nothing failed: its 494
  -- cases are run and matched, whatever `longest` held at first, where the direct-object baseline
  -- passes.
  pub gate_demo_passes :
      (junk : Insn)
      → main
          (check_case b b.handle_bytes)
          (λ t. t.cases)
          (λ t. t.matched)
          (direct_object_baseline true)
          junk
          zeroed
        ≡ false
  unfolding direct_object_baseline
  gate_demo_passes junk =
      main-Same (Counted b) (check_case b b.handle_bytes) reference_check check_case-Same
        (λ t. t.cases) (λ t. t.matched) (λ n. n.0) (λ n. n.1) (λ t n h. (h.0, h.1)) false junk
        zeroed (0, 0) start-Counted
      ∙ reference_passes junk
