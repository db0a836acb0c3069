-- ===== src/GateDemo.antt =====
-- src/gate_demo.c: the demo that runs every case through `cbpf_run` and `cbpf_gate_run` and compares
-- the two. The lines it prints are left out, with the names that only those lines use.
pub mod Cases
pub mod Corpus
mod Agreement
mod Related
pub mod Passing
use c_bpf.Base.{
  ℕ, zero, suc, ◌+◌, ◌-◌, ◌*◌, ◌/◌, ◌%◌, ◌^◌, Bool, true, false, not, ◌&&◌, ◌||◌, Option, some,
  none, List, ◌==◌, ltb, leb, flag, if◌then◌else◌, ℤ, pos, negsuc, get_elem?,
}
use c_bpf.Ir.{Insn, Opcode, acquire, Result, Event, step, cbpf_cells, cbpf_max_events}
use c_bpf.Demo.{same_status, same_trap}
use c_bpf.Demo.Boundaries.{same_kind, same_op}
use c_bpf.Reference.{cbpf_run}
use c_bpf.Gate.{gate_run, Metrics}
use c_bpf.Gate.Platform.{Build}
use c_bpf.Gate.Metering.{expected_metrics}
use c_bpf.GateDemo.Cases.{Expectation}

abbrev pub same_int : ℤ → ℤ → Bool
same_int (pos m) (pos n) = m == n
same_int (negsuc m) (negsuc n) = m == n
same_int _ _ = false

-- An entry of the array `events`, which starts as zeros.
abbrev pub entry : List Event → ℕ → Event
entry es i = elim (get_elem? es i) [
  | none ↦ record { kind = step; op = acquire; pc = 0; token = 0; object_refs = 0 }
  | some e ↦ e
]

-- A loop that looks for a mismatch at each of the first `n` indices.
unfoldable pub all_below : ℕ → (ℕ → Bool) → Bool
all_below zero test = true
all_below (suc n) test = test n && all_below n test

abbrev pub same_event : Event → Event → Bool
same_event d e =
    same_kind d.kind e.kind
    && same_op d.op e.op
    && d.pc == e.pc
    && d.token == e.token
    && d.object_refs == e.object_refs

unfoldable pub equal_result : Result → Result → Bool
unfolding all_below
equal_result a b =
    same_status a.status b.status
    && same_trap a.trap b.trap
    && a.pc == b.pc
    && same_int a.returned b.returned
    && a.acquired == b.acquired
    && a.reads == b.reads
    && a.explicit_releases == b.explicit_releases
    && a.cleanup_releases == b.cleanup_releases
    && a.last_read == b.last_read
    && a.object_refs == b.object_refs
    && a.event_count == b.event_count
    && all_below cbpf_cells (λ i.
      a.explicit_by_cell i == b.explicit_by_cell i && a.cleanup_by_cell i == b.cleanup_by_cell i)
    && all_below cbpf_max_events (λ i. same_event (entry a.events i) (entry b.events i))

unfoldable pub expected_result : Result → Expectation → Bool
unfolding all_below
expected_result r e =
    same_status r.status e.status
    && same_trap r.trap e.trap
    && r.pc == e.pc
    && r.acquired == e.acquired
    && r.reads == e.reads
    && r.explicit_releases == e.releases
    && r.cleanup_releases == e.cleanups
    && same_int r.returned e.returned
    && r.event_count == e.events
    && r.object_refs == 1
    && r.last_read == (if e.reads == 0 then 0 else 42)
    && all_below cbpf_cells (λ i.
      r.explicit_by_cell i == (e.explicit_mask / 2 ^ i) % 2
      && r.cleanup_by_cell i == (e.cleanup_mask / 2 ^ i) % 2)

-- The static variables.
pub record Tester : Type 0 where
  pub cases : ℕ
  pub matched : ℕ
  pub cell_bytes : ℕ
  pub handle_bytes : ℕ

module _ (b : Build) (pointer_bytes : ℕ) where
  abbrev pub agree : Metrics → Metrics → Tester → Bool
  agree m n t =
      m.acquisitions == n.acquisitions
      && m.reads == n.reads
      && m.releases == n.releases
      && m.cleanups == n.cleanups
      && (if b.purecap then m.purecap else not m.purecap)
      && m.representation_errors == 0
      && m.restricted_handles == n.restricted_handles
      && m.tag_clears == n.tag_clears
      && not (m.cell_bytes == 0)
      && m.cell_bytes == t.cell_bytes
      && m.handle_bytes == pointer_bytes
      && m.handle_bytes == t.handle_bytes

  -- `expected_metrics`, the tallies of which are the model's `expected_metrics`.
  unfoldable pub metrics_hold : Result → Metrics → Tester → Bool × Tester
  unfolding expected_metrics
  metrics_hold r m t =
      let t' =
        if t.cell_bytes == 0
        then record t { cell_bytes = m.cell_bytes; handle_bytes = m.handle_bytes }
        else t in
      (agree m (expected_metrics b r) t', t')

  -- `check_case` from the two runs on.
  unfoldable pub compare : Result → Result × Metrics → Expectation → Tester → Bool × Tester
  unfolding metrics_hold equal_result expected_result
  compare reference (gate, metrics) e t₀ =
      let t : Tester = record t₀ { cases = t₀.cases + 1 } in
      let agreed =
        equal_result reference gate && expected_result reference e && expected_result gate e in
      let metered =
        if leb gate.event_count cbpf_max_events then metrics_hold gate metrics t else (false, t) in
      let good = agreed && metered.0 in
      (not good, record (metered.1) { matched = metered.1.matched + flag good })

  -- The comparisons of `check_case`. A run out of fuel counts as a failed case.
  unfoldable pub compare_runs :
      Option Result → Option (Result × Metrics) → Expectation → Tester → Bool × Tester
  unfolding compare
  compare_runs none gate e t = (true, record t { cases = t.cases + 1 })
  compare_runs (some reference) none e t = (true, record t { cases = t.cases + 1 })
  compare_runs (some reference) (some gate) e t = compare reference gate e t

  -- Whether the case fails. The two statuses that the runs return are those of their results.
  unfoldable pub check_case : Option (List Insn) → Expectation → Tester → Bool × Tester
  unfolding compare_runs cbpf_run gate_run
  check_case p e t = compare_runs (cbpf_run p) (gate_run b p) e t

-- `direct_object_baseline`: the object's field and count, and the effects, where its capability came
-- out as `representation_ok` says. `true` means that it fails.
unfoldable pub direct_object_baseline : Bool → Bool
direct_object_baseline representation_ok =
    let value : ℕ = 42 in
    let refs : ℕ = 1 + 2 - 1 in
    let good = representation_ok && value == 42 && refs == 2 in
    if representation_ok then not (good && refs - 1 == 1 && 1 + 1 == 2) else true
