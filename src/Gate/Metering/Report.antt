-- ===== src/Gate/Metering/Report.antt =====
-- src/gate.c and `expected_metrics` of src/gate_demo.c: the metrics of a whole run.
use mathlib.Core.Option
use c_bpf.Base.{
  ◌≢◌, ℕ, suc, ◌<◌, ◌≡◌, refl, sym, ap, ◌∙◌, Option, none, some, List, arith, Bool-cases, inl, inr,
  length,
}
use c_bpf.Ir.WellFormed.{validate_iff, validate_null}
use c_bpf.Ir.Validate.{Verdict, accepted, rejected, cbpf_validate}
use c_bpf.Reference.{cbpf_run, program}
use c_bpf.Reference.Run.{Verdicts, run-Verdicts}
use c_bpf.Gate.Platform.{IsFaithful}
use c_bpf.Gate.Simulation.{gate_run-eq-cbpf_run}
use c_bpf.Ir.{fresh, Insn, Result, invalid}
use c_bpf.Gate.Platform.{Build}
use c_bpf.Gate.{Metrics, Machine, loop, clean, start, finish_run, gate_run, fresh_metrics}
use c_bpf.Gate.Metering.{tally, expected_metrics, owed, Metered, tallied}
use c_bpf.Gate.Metering.Rounds.{EndMeters, loop-Meters, clean-Meters}

module _ (b : Build) where
  start-Metered : Metered b (fresh_metrics b) fresh
  unfolding tally
  start-Metered = elim (Bool-cases b.purecap) [ inl e ↦ rw e refl | inr e ↦ rw e refl ]

  Metered-expected : (m : Metrics) (res : Result) → Metered b m res → m ≡ expected_metrics b res
  unfolding expected_metrics
  Metered-expected m res h =
      h ∙ tallied b (owed b 0 0 0 res) (omega arith) (omega arith) (omega arith)

  -- The value of `cbpf_gate_run` where the reference interpreter ends with `r`.
  Completed : Result → Option (Machine b) → Type 0
  Completed r o =
      EndMeters b o
      → Option.map (λ x. x.0) (finish_run b o) ≡ some r
      → r.status ≢ invalid
      → finish_run b o ≡ some (r, expected_metrics b r)

  finish_run-Completed : (r : Result) (o : Option (Machine b)) → Completed r o
  unfolding finish_run Completed
  finish_run-Completed r none h e k = cc
  finish_run-Completed r (some m) h e k = elim (clean-Meters b m.result.acquired 0 m h) [
    | inl w ↦ ap some (
        ap (λ x. (x, (clean b m.result.acquired 0 m).metrics)) q
        ∙ ap (λ x. (r, x)) (Metered-expected _ _ w ∙ ap (expected_metrics b) q))
    | inr w ↦ absurd (k (ap (λ (x : Result). x.status) (sym q) ∙ w))
  ]
    where
      q : (clean b m.result.acquired 0 m).result ≡ r
      q = cc

module _ (b : Build) (faithful : IsFaithful b)
    (total : (i : ℕ) → i < 2 → (v : b.Handle) × (b.prepare_view i ≡ some v)) where
  -- A run of a program is not INVALID.
  Verdicts-valid : (p : List Insn) (r : Result) → Verdicts p r → r.status ≢ invalid
  Verdicts-valid p r (x, e, inl v) q = cc
  Verdicts-valid p r (x, e, inr v) q = cc

  refused :
      (i : ℕ)
      → (let r : Result = record fresh { status = invalid; pc = i } in
          ◌≡◌ {A = Option (Result × Metrics)}
            (some (r, fresh_metrics b))
            (some (r, expected_metrics b r)))
  refused i =
      ap (λ (m : Metrics). some (record fresh { status = invalid; pc = i }, m))
        (Metered-expected b (fresh_metrics b) (record fresh { status = invalid; pc = i })
          (start-Metered b))

  -- Where a build is faithful and prepares a view of both cells, `cbpf_gate_run` returns on any input
  -- the result of `cbpf_run`, and with it the metrics that `expected_metrics` works out from that
  -- result: a count of each gate's calls that is the number of its events, cleanup apart, and of
  -- cleanups, restrictions and tag clears; no representation error.
  pub gate_run-expected_metrics :
      (p : Option (List Insn))
      → gate_run b p ≡ Option.map (λ r. (r, expected_metrics b r)) (cbpf_run p)
  unfolding gate_run cbpf_run program Completed start
  gate_run-expected_metrics none = rw (validate_null, gate_run, cbpf_run) (refused 0)
  gate_run-expected_metrics (some p) = judged (cbpf_validate (some p)) refl
    where
      judged :
          (w : Verdict)
          → cbpf_validate (some p) ≡ w
          → gate_run b (some p) ≡ Option.map (λ r. (r, expected_metrics b r)) (cbpf_run (some p))
      judged accepted e =
          let (r, eq, (_, w)) = run-Verdicts p ((validate_iff p).0 e) in
          let o = loop b (suc (length p)) p 0 (start b) in
          let runs : gate_run b (some p) ≡ finish_run b o = rw (e, gate_run) refl in
          runs
          ∙ finish_run-Completed b r o
              (loop-Meters b (suc (length p)) p 0 (start b) (start-Metered b))
              (ap (Option.map (λ x. x.0)) (sym runs)
                ∙ gate_run-eq-cbpf_run b faithful total (some p)
                ∙ eq)
              (Verdicts-valid p r w)
          ∙ sym (ap (Option.map (λ r. (r, expected_metrics b r))) eq)
      judged (rejected i) e = rw (e, gate_run, cbpf_run) (refused i)
