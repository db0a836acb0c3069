-- ===== src/Demo/Boundaries.antt =====
-- src/demo.c, `execution_boundaries`.
use c_bpf.Base.{
  ℕ, zero, suc, ◌+◌, ◌-◌, Bool, true, false, ◌&&◌, some, none, List, [], ◌∷◌, ◌==◌, is, length,
  get_elem?,
}
use c_bpf.Ir
use c_bpf.Ir.{
  Insn, Opcode, acquire, copy, spill, reload, read, release, br_null, return, other, Result, Trap,
  no_trap, Event, EventKind, step, trap_event, cleanup, cbpf_cells, cbpf_max_insns, cbpf_max_events,
}
use c_bpf.Reference.{cbpf_run}
use c_bpf.Demo.{insn, same_status, same_trap, check}

abbrev pub early_return : List Insn
early_return =
    insn acquire 0 0 1
    ∷ insn return 0 0 7
    ∷ insn read 0 0 0
    ∷ insn release 0 0 0
    ∷ insn acquire 1 0 1
    ∷ insn return 0 0 9
    ∷ []

abbrev pub repeated : ℕ → Insn → List Insn → List Insn
repeated zero x rest = rest
repeated (suc n) x rest = x ∷ repeated n x rest

-- Two acquisitions, reads up to the last instruction but one, and a return.
abbrev pub longest : List Insn
longest =
    insn acquire 0 0 1
    ∷ insn acquire 1 0 1
    ∷ repeated (cbpf_max_insns - 3) (insn read 0 0 0) (insn return 0 0 9 ∷ [])

abbrev pub same_kind : EventKind → EventKind → Bool
same_kind step step = true
same_kind trap_event trap_event = true
same_kind cleanup cleanup = true
same_kind _ _ = false

abbrev pub same_op : Opcode → Opcode → Bool
same_op acquire acquire = true
same_op copy copy = true
same_op spill spill = true
same_op reload reload = true
same_op read read = true
same_op release release = true
same_op br_null br_null = true
same_op return return = true
same_op (other j) (other k) = j == k
same_op _ _ = false

-- A test of the event at an index, which fails where there is none.
abbrev pub event_at : Result → ℕ → (Event → Bool) → Bool
event_at r i test = elim (get_elem? r.events i) [ none ↦ false | some e ↦ test e ]

unfoldable pub halts_early : Result → Bool
halts_early r =
    same_status r.status Ir.Status.returned
    && same_trap r.trap no_trap
    && r.pc == 1
    && is r.returned 7
    && r.acquired == 1
    && r.reads == 0
    && r.explicit_releases == 0
    && r.cleanup_releases == 1
    && r.cleanup_by_cell 0 == 1
    && r.object_refs == 1
    && r.event_count == 3
    && event_at r 1 (λ e. same_kind e.kind step && same_op e.op return)
    && event_at r 2 (λ e. same_kind e.kind cleanup && e.pc == 1)

-- The loop over the steps: the events from index `i` are those of the instructions.
unfoldable pub steps_match : List Insn → ℕ → Result → Bool
steps_match [] i r = true
steps_match (x ∷ xs) i r =
    event_at r i (λ e. same_kind e.kind step && e.pc == i && same_op e.op x.op)
    && steps_match xs (i + 1) r

-- The loop over the cells: `k` rounds from `i`.
unfoldable pub cleanups_match : ℕ → ℕ → Result → Bool
cleanups_match zero i r = true
cleanups_match (suc k) i r =
    r.explicit_by_cell i == 0
    && r.cleanup_by_cell i == 1
    && event_at r (cbpf_max_insns + i) (λ e.
      same_kind e.kind cleanup
      && same_op e.op release
      && e.pc == length longest - 1
      && e.token == i + 1
      && e.object_refs == cbpf_cells - i)
    && cleanups_match k (i + 1) r

unfoldable pub fills_trace : Result → Bool
unfolding steps_match cleanups_match
fills_trace r =
    same_status r.status Ir.Status.returned
    && same_trap r.trap no_trap
    && r.pc == length longest - 1
    && is r.returned 9
    && r.acquired == cbpf_cells
    && r.reads == cbpf_max_insns - 3
    && r.last_read == 42
    && r.explicit_releases == 0
    && r.cleanup_releases == cbpf_cells
    && r.object_refs == 1
    && r.event_count == cbpf_max_events
    && steps_match longest 0 r
    && cleanups_match cbpf_cells 0 r

unfoldable pub execution_boundaries : Bool
unfolding halts_early fills_trace check cbpf_run
execution_boundaries =
    check halts_early (cbpf_run (some early_return)) && check fills_trace (cbpf_run (some longest))
