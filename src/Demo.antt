-- ===== src/Demo.antt =====
-- src/demo.c: the example programs, and the checks that it makes of a run. The printed lines are
-- left out; the answer of a check is the C result 0.
pub mod Boundaries
use c_bpf.Base.{
  ℕ, zero, suc, ◌+◌, ◌-◌, Bool, true, false, ◌&&◌, ◌||◌, Option, some, none, List, [], ◌∷◌, ◌==◌,
  pos, is,
}
use c_bpf.Ir
use c_bpf.Ir.{
  Insn, Opcode, acquire, copy, spill, reload, read, release, br_null, return, other, Result, Status,
  Trap, no_trap, null, stale, exhausted, trapped, invalid, Event, EventKind, step, trap_event,
  cleanup, cbpf_regs, cbpf_cells, cbpf_max_insns, cbpf_max_events,
}
use c_bpf.Reference.{cbpf_run}

abbrev pub insn : Opcode → ℕ → ℕ → ℕ → Insn
insn op dst src imm = record { op = op; dst = dst; src = src; imm = pos imm }

abbrev pub valid_ab : List Insn
valid_ab =
    insn acquire 0 0 1
    ∷ insn acquire 1 0 1
    ∷ insn read 0 0 0
    ∷ insn release 0 0 0
    ∷ insn read 1 0 0
    ∷ insn release 1 0 0
    ∷ insn return 0 0 0
    ∷ []

abbrev pub stale_a_live_b : List Insn
stale_a_live_b =
    insn acquire 0 0 1
    ∷ insn acquire 1 0 1
    ∷ insn release 0 0 0
    ∷ insn read 1 0 0
    ∷ insn read 0 0 0
    ∷ insn release 1 0 0
    ∷ insn return 0 0 0
    ∷ []

abbrev pub double_release : List Insn
double_release =
    insn acquire 0 0 1
    ∷ insn copy 1 0 0
    ∷ insn release 0 0 0
    ∷ insn release 1 0 0
    ∷ insn return 0 0 0
    ∷ []

abbrev pub alias_spill : List Insn
alias_spill =
    insn acquire 0 0 1
    ∷ insn spill 0 0 0
    ∷ insn reload 1 0 0
    ∷ insn read 1 0 0
    ∷ insn release 1 0 0
    ∷ insn read 0 0 0
    ∷ insn return 0 0 0
    ∷ []

abbrev pub null_branch : List Insn
null_branch = insn acquire 0 0 0 ∷ insn br_null 0 0 3 ∷ insn read 0 0 0 ∷ insn return 0 0 7 ∷ []

abbrev pub exhaustion : List Insn
exhaustion =
    insn acquire 0 0 1
    ∷ insn release 0 0 0
    ∷ insn acquire 1 0 1
    ∷ insn release 1 0 0
    ∷ insn acquire 2 0 1
    ∷ insn return 0 0 0
    ∷ []

abbrev pub live_cleanup : List Insn
live_cleanup = insn acquire 0 0 1 ∷ insn copy 1 0 0 ∷ insn spill 0 1 0 ∷ insn return 0 0 9 ∷ []

abbrev pub same_status : Status → Status → Bool
same_status Ir.Status.returned Ir.Status.returned = true
same_status trapped trapped = true
same_status invalid invalid = true
same_status _ _ = false

abbrev pub same_trap : Trap → Trap → Bool
same_trap no_trap no_trap = true
same_trap null null = true
same_trap stale stale = true
same_trap exhausted exhausted = true
same_trap _ _ = false

-- The arguments of `example` behind the program.
pub record Expectation : Type 0 where
  pub status : Status
  pub trap : Trap
  pub pc : ℕ
  pub acquired : ℕ
  pub reads : ℕ
  pub releases : ℕ
  pub cleanup : ℕ
  pub returned : ℕ

-- The last loop: each of the first `n` cells has been consumed once.
unfoldable pub consumed_once : ℕ → Result → Bool
consumed_once zero r = true
consumed_once (suc i) r = r.explicit_by_cell i + r.cleanup_by_cell i == 1 && consumed_once i r

unfoldable pub meets : Expectation → Result → Bool
unfolding consumed_once
meets e r =
    same_status r.status e.status
    && same_trap r.trap e.trap
    && r.pc == e.pc
    && r.acquired == e.acquired
    && r.reads == e.reads
    && r.explicit_releases == e.releases
    && r.cleanup_releases == e.cleanup
    && r.object_refs == 1
    && is r.returned e.returned
    && (e.reads == 0 || r.last_read == 42)
    && consumed_once e.acquired r

unfoldable pub check : (Result → Bool) → Option Result → Bool
check test none = false
check test (some r) = test r

unfoldable pub example : List Insn → Expectation → Bool
unfolding meets check cbpf_run
example p e = check (meets e) (cbpf_run (some p))

abbrev pub expect : Status → Trap → ℕ → ℕ → ℕ → ℕ → ℕ → ℕ → Expectation
expect s t pc a r x c v = record {
  status = s;
  trap = t;
  pc = pc;
  acquired = a;
  reads = r;
  releases = x;
  cleanup = c;
  returned = v;
}

unfoldable pub examples : Bool
unfolding example
examples =
    example valid_ab (expect Ir.Status.returned no_trap 6 2 2 2 0 0)
    && example stale_a_live_b (expect trapped stale 4 2 1 1 1 0)
    && example double_release (expect trapped stale 3 1 0 1 0 0)
    && example alias_spill (expect trapped stale 5 1 1 1 0 0)
    && example null_branch (expect Ir.Status.returned no_trap 3 0 0 0 0 7)
    && example exhaustion (expect trapped exhausted 4 2 0 2 0 0)
    && example live_cleanup (expect Ir.Status.returned no_trap 3 1 0 0 1 9)

-- The status alone.
unfoldable pub is_invalid : List Insn → Bool
unfolding check cbpf_run
is_invalid p = check (λ r. same_status r.status invalid) (cbpf_run (some p))

abbrev pub unreachable_bad : List Insn
unreachable_bad =
    insn acquire 0 0 1 ∷ insn return 0 0 7 ∷ insn read cbpf_regs 0 0 ∷ insn return 0 0 0 ∷ []

abbrev pub untouched : Result → Bool
untouched r =
    same_status r.status invalid
    && r.pc == 2
    && same_trap r.trap no_trap
    && r.event_count == 0
    && r.acquired == 0
    && r.reads == 0
    && r.explicit_releases == 0
    && r.cleanup_releases == 0
    && is r.returned 0
    && r.object_refs == 1

unfoldable pub structural_controls : Bool
unfolding is_invalid check cbpf_run
structural_controls =
    check (λ r. same_status r.status trapped && same_trap r.trap null && r.reads == 0)
      (cbpf_run (some (insn read 0 0 0 ∷ insn return 0 0 0 ∷ [])))
    && is_invalid (insn read cbpf_regs 0 0 ∷ insn return 0 0 0 ∷ [])
    && is_invalid (insn br_null 0 0 0 ∷ insn return 0 0 0 ∷ [])
    && is_invalid (insn (other 99) 0 0 0 ∷ insn return 0 0 0 ∷ [])
    && check (λ r. same_status r.status invalid && r.acquired == 0 && r.object_refs == 1)
        (cbpf_run (some (insn acquire 0 0 1 ∷ [])))
    && check untouched (cbpf_run (some unreachable_bad))

-- Two acquisitions of one object by plain pointers, and their releases; the object stays live.
unfoldable pub conceptual_object_baseline : Bool
conceptual_object_baseline =
    let value : ℕ = 42 in
    let refs : ℕ = 1 + 2 - 1 in
    let stale_value : ℕ = value in
    (value == 42 && refs == 2) && (stale_value == 42 && refs - 1 == 1)
