-- ===== src/Checks/UnpreparedWitnesses.antt =====
-- The theorem on builds that cannot prepare a view, at a build that prepares only the first.
use c_bpf.Base.{◌⊎◌, ◌≡◌, none, some, List, [], ◌∷◌, ◌==◌, if◌then◌else◌, arith, pos}
use c_bpf.Ir.{Insn, acquire, return, Result, invalid, cbpf_max_insns}
use c_bpf.Reference.{cbpf_run}
use c_bpf.Reference.Cleanup.{IsSettled}
use c_bpf.Gate.{Metrics, gate_run}
use c_bpf.Gate.Platform.{Build, IsFaithful, host, host-IsFaithful}
use c_bpf.Gate.Simulation.Breaks.{Unprepared}
use c_bpf.Gate.Simulation.Errors.{IsCounted}
use c_bpf.Gate.Simulation.Unprepared.{gate_run-Settles}

abbrev short_build : Build
short_build = record (host 8) { prepare_view = λ i. if i == 0 then some (some 0) else none }

short_build-IsFaithful : IsFaithful short_build
short_build-IsFaithful =
    let h = host-IsFaithful 8 in
    record {
      same_sound = h.same_sound;
      same_refl = h.same_refl;
      view_not_null = λ i v e. ground (arith, e);
      view_injective = λ i j v l l' e e'. ground (arith, e, e');
      null_dead = h.null_dead;
      ref_live = h.ref_live;
      cleared_dead = h.cleared_dead;
    }

abbrev two_acquisitions : List Insn
two_acquisitions =
    record { op = acquire; dst = 0; src = 0; imm = pos 1 }
    ∷ record { op = acquire; dst = 1; src = 0; imm = pos 1 }
    ∷ record { op = return; dst = 0; src = 0; imm = pos 0 }
    ∷ []

gate_run-Settles_example :
    (r : Result) × (m : Metrics) × (gate_run short_build (some two_acquisitions) ≡ some (r, m))
    × IsSettled cbpf_max_insns r
    × IsCounted short_build r m
    × ((cbpf_run (some two_acquisitions) ≡ some r)
        ⊎ ((r.status ≡ invalid) × Unprepared short_build short_build-IsFaithful))
gate_run-Settles_example =
    gate_run-Settles short_build short_build-IsFaithful (some two_acquisitions)
