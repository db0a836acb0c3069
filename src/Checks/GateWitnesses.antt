-- ===== src/Checks/GateWitnesses.antt =====
-- The theorems on src/gate_demo.c and src/tools/conformance_bridge.c at concrete inputs.
use mathlib.Core.Option
use mathlib.Core.Path.{subst}
use c_bpf.Base.{ℕ, ◌≡◌, refl, some, List, [], ◌∷◌, arith, true, false, get_elem?, zero, suc}
use c_bpf.Ir.{Insn, acquire, read, return}
use c_bpf.Reference.{cbpf_run}
use c_bpf.Gate.{gate_run}
use c_bpf.Gate.Platform.{host, host-IsFaithful}
use c_bpf.Gate.Metering.{expected_metrics}
use c_bpf.Gate.Metering.Report.{gate_run-expected_metrics}
use c_bpf.GateDemo.{check_case, direct_object_baseline}
use c_bpf.GateDemo.Corpus.{main}
use c_bpf.GateDemo.Passing.{zeroed, gate_demo_passes}
use c_bpf.Bridge.{cbpf_conformance_run}
use c_bpf.Bridge.Refusal.{InRange, conformance_run_cases}
use c_bpf.Base.{◌≤◌, ◌<◌, ◌⊎◌, ℤ, none, true}
use c_bpf.Bridge.Bounds.{Fits, conformance_run-Fits}
use c_bpf.Bridge.Sending.{IsSendable, flatten}
use c_bpf.Bridge.Reading.{read_result}
use c_bpf.Bridge.RoundTrip.{conformance_run_round}
use c_bpf.Demo.{insn, stale_a_live_b}

gate_run-expected_metrics_example :
    gate_run (host 8) (some stale_a_live_b)
    ≡ Option.map (λ r. (r, expected_metrics (host 8) r)) (cbpf_run (some stale_a_live_b))
gate_run-expected_metrics_example =
    gate_run-expected_metrics (host 8) (host-IsFaithful 8) (λ i h. (some i, refl))
      (some stale_a_live_b)

gate_demo_passes_example :
    main
      (check_case (host 8) 8)
      (λ t. t.cases)
      (λ t. t.matched)
      (direct_object_baseline true)
      (insn read 0 0 0)
      zeroed
    ≡ false
gate_demo_passes_example =
    gate_demo_passes (host 8) (host-IsFaithful 8) (λ i h. (some i, refl)) (λ e. omega (arith, e))
      (insn read 0 0 0)

conformance_run-Fits_example :
    Fits 345 (cbpf_conformance_run cbpf_run (flatten stale_a_live_b) 7 345)
conformance_run-Fits_example = conformance_run-Fits cbpf_run (flatten stale_a_live_b) 7 345

abbrev two_reads : List Insn
two_reads = insn acquire 0 0 1 ∷ insn read 0 0 0 ∷ insn return 0 0 7 ∷ []

two_reads-IsSendable : (i : ℕ) (x : Insn) → get_elem? two_reads i ≡ some x → IsSendable x
two_reads-IsSendable zero x e =
    let q : insn acquire 0 0 1 ≡ x = cc in
    subst IsSendable q (record { named = tt; dst = omega arith; src = omega arith })
two_reads-IsSendable (suc zero) x e =
    let q : insn read 0 0 0 ≡ x = cc in
    subst IsSendable q (record { named = tt; dst = omega arith; src = omega arith })
two_reads-IsSendable (suc (suc zero)) x e =
    let q : insn return 0 0 7 ≡ x = cc in
    subst IsSendable q (record { named = tt; dst = omega arith; src = omega arith })
two_reads-IsSendable (suc (suc (suc i))) x e = cc

conformance_run_round_example :
    Option.map read_result (cbpf_conformance_run cbpf_run (flatten two_reads) 3 345)
    ≡ cbpf_run (some two_reads)
conformance_run_round_example =
    conformance_run_round two_reads 345 (omega arith) two_reads-IsSendable (omega arith)

conformance_run_cases_example :
    ((3 ≤ 64)
      × (345 ≤ 345)
      × ((j : ℕ) → j < 3 → InRange (flatten two_reads) j)
      × ((words : List ℤ) × (cbpf_conformance_run cbpf_run (flatten two_reads) 3 345 ≡ some words)))
    ⊎ (((64 < 3) ⊎ (345 < 345) ⊎ ((j : ℕ) × (j < 3) × ¬ InRange (flatten two_reads) j))
        × (cbpf_conformance_run cbpf_run (flatten two_reads) 3 345 ≡ none))
conformance_run_cases_example = conformance_run_cases (flatten two_reads) 3 345
