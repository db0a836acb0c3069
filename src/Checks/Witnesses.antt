-- ===== src/Checks/Witnesses.antt =====
-- The theorems on src/cbpf.c and src/gate.c at concrete inputs.
use mathlib.Core.Option
use mathlib.Core.Logic.{◌↔◌}
use c_bpf.Base.{◌≡◌, refl, inl, true, false, some, [], arith, store}
use c_bpf.Ir.{step, read, release, fresh, log, cbpf_max_insns}
use c_bpf.Ir.Validate.{cbpf_validate, accepted, insn_ok}
use c_bpf.Ir.WellFormed.{IsProgram, Judges, validate-Judges, validate_iff}
use c_bpf.Reference.{Machine, on, round, cbpf_run}
use c_bpf.Reference.Loop.{Returns}
use c_bpf.Reference.Cleanup.{IsSettled}
use c_bpf.Reference.Run.{Verdicts, run-Verdicts, run-IsSettled}
use c_bpf.Reference.Invariant.{IsIssued}
use c_bpf.Reference.Aliases.{here, StopsStale, release_revokes}
use c_bpf.Gate.{gate_run}
use c_bpf.Gate.Platform.{host, host-IsFaithful}
use c_bpf.Gate.Simulation.{gate_run-eq-cbpf_run}
use c_bpf.Demo.{insn, stale_a_live_b, alias_spill}

-- Validation accepts the program.
stale_accepted : cbpf_validate (some stale_a_live_b) ≡ accepted
unfolding cbpf_validate insn_ok
stale_accepted = refl

validate_iff_example : (cbpf_validate (some stale_a_live_b) ≡ accepted) ↔ IsProgram stale_a_live_b
validate_iff_example = validate_iff stale_a_live_b

stale-IsProgram : IsProgram stale_a_live_b
stale-IsProgram = (validate_iff stale_a_live_b).0 stale_accepted

validate-Judges_example : Judges alias_spill (cbpf_validate (some alias_spill))
validate-Judges_example = validate-Judges alias_spill

run-IsSettled_example : Returns (IsSettled cbpf_max_insns) (cbpf_run (some stale_a_live_b))
run-IsSettled_example = run-IsSettled (some stale_a_live_b)

run-Verdicts_example :
    Returns (λ r. IsSettled 7 r × Verdicts stale_a_live_b r) (cbpf_run (some stale_a_live_b))
run-Verdicts_example = run-Verdicts stale_a_live_b stale-IsProgram

-- One live acquisition, with its handle in registers 0 and 1.
abbrev held : Machine
held = record {
  regs = store (store (λ _. 0) 0 1) 1 1;
  spills = λ _. 0;
  live = store (λ _. false) 0 true;
  result = record fresh { acquired = 1; object_refs = 2 };
}

held-IsIssued : IsIssued held
held-IsIssued = record { regs = λ j. ground arith; spills = λ j. omega arith }

-- The state after RELEASE through register 0 at PC 4.
abbrev freed : Machine
freed = record {
  regs = held.regs;
  spills = held.spills;
  live = store held.live 0 false;
  result =
      log
        (record (held.result) {
          pc = 4;
          object_refs = 1;
          explicit_releases = 1;
          explicit_by_cell = store (λ _. 0) 0 1;
        })
        step release 4 1;
}

held_step : round (insn release 0 0 0) 4 held ≡ on 5 freed
unfolding round
held_step = refl

release_revokes_example : StopsStale freed (round (insn read 1 0 0) 5 freed)
unfolding log
release_revokes_example =
    release_revokes 0 [] (insn release 0 0 0) (insn read 1 0 0) 4 held held-IsIssued refl refl
      held_step (here refl refl) (inl refl) refl

gate_run-eq-cbpf_run_example :
    Option.map (λ r. r.0) (gate_run (host 8) (some stale_a_live_b)) ≡ cbpf_run (some stale_a_live_b)
gate_run-eq-cbpf_run_example =
    gate_run-eq-cbpf_run (host 8) (host-IsFaithful 8) (λ i h. (some i, refl)) (some stale_a_live_b)
