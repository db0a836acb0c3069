-- ===== src/Reference.antt =====
-- src/cbpf.c, `cbpf_run`: the host reference interpreter. A cell index is a token minus one, and
-- token 0 is the NULL handle. The reference count is an `int` that starts at 1; it is a number
-- here, and falls only after it has risen.
pub mod Aliases
pub mod Cleanup
pub mod Events
pub mod Forward
pub mod Invariant
pub mod Loop
pub mod Run
use c_bpf.Base.{
  ℕ, zero, suc, ◌+◌, ◌-◌, Bool, true, false, Option, none, some, List, ◌==◌, if◌then◌else◌, length,
  get_elem?, store, is, to_word,
}
use c_bpf.Ir.{
  Insn, Opcode, acquire, copy, spill, reload, read, release, br_null, return, other, Result, fresh,
  log, EventKind, Trap, null, stale, exhausted, trapped, invalid, step, trap_event, cleanup,
  cbpf_cells,
}
use c_bpf.Ir
use c_bpf.Ir.Validate.{Verdict, accepted, rejected, cbpf_validate}

-- The locals of `cbpf_run`, and what `r` points to.
pub record Machine : Type 0 where
  pub regs : ℕ → ℕ
  pub spills : ℕ → ℕ
  pub live : ℕ → Bool
  pub result : Result

-- How the switch is left: to the STEP event with a token and the next PC, to the label `trap`, or
-- to the label `finish`.
pub data Effect : Type 0 where
  go : ℕ → ℕ → Machine → Effect
  fault : Trap → ℕ → Machine → Effect
  done : Machine → Effect

-- A successful acquisition: no cell is reused, even after its consumption.
unfoldable pub issue : ℕ → Machine → Machine
issue dst m = record m {
  regs = store m.regs dst (m.result.acquired + 1);
  live = store m.live m.result.acquired true;
  result = record (m.result) {
    acquired = m.result.acquired + 1;
    object_refs = m.result.object_refs + 1;
  };
}

unfoldable pub acquire_cell : Insn → ℕ → Machine → Effect
unfolding issue
acquire_cell x pc m =
    if is x.imm 0
    then go 0 (pc + 1) (record m { regs = store m.regs x.dst 0 })
    else if m.result.acquired == cbpf_cells
    then fault exhausted 0 m
    else go (m.result.acquired + 1) (pc + 1) (issue x.dst m)

-- The two tests that READ and RELEASE share.
unfoldable pub with_live : Machine → ℕ → Effect → Effect
with_live m token k =
    if token == 0 then fault null token m else if m.live (token - 1) then k else fault stale token m

unfoldable pub read_cell : ℕ → ℕ → Machine → Effect
unfolding with_live
read_cell token pc m = with_live m token (
    go token (pc + 1)
      (record m { result = record (m.result) { reads = m.result.reads + 1; last_read = 42 } }))

-- The effects of RELEASE on cell `i`, which is consumed before the provider effect.
unfoldable pub release_at : ℕ → Machine → Machine
release_at i m = record m {
  live = store m.live i false;
  result = record (m.result) {
    object_refs = m.result.object_refs - 1;
    explicit_releases = m.result.explicit_releases + 1;
    explicit_by_cell = store m.result.explicit_by_cell i (m.result.explicit_by_cell i + 1);
  };
}

unfoldable pub release_cell : ℕ → ℕ → Machine → Effect
unfolding with_live release_at
release_cell token pc m = with_live m token (go token (pc + 1) (release_at (token - 1) m))

unfoldable pub exec : Opcode → Insn → ℕ → Machine → Effect
unfolding acquire_cell read_cell release_cell log
exec acquire x pc m = acquire_cell x pc m
exec copy x pc m =
    go (m.regs x.src) (pc + 1) (record m { regs = store m.regs x.dst (m.regs x.src) })
exec spill x pc m =
    go (m.regs x.src) (pc + 1) (record m { spills = store m.spills x.dst (m.regs x.src) })
exec reload x pc m =
    go (m.spills x.src) (pc + 1) (record m { regs = store m.regs x.dst (m.spills x.src) })
exec read x pc m = read_cell (m.regs x.dst) pc m
exec release x pc m = release_cell (m.regs x.dst) pc m
exec br_null x pc m = go (m.regs x.dst) (if m.regs x.dst == 0 then to_word 64 x.imm else pc + 1) m
exec return x pc m = done (record m {
  result =
      log (record (m.result) { returned = x.imm; status = Ir.Status.returned }) step return pc 0;
})
exec (other k) x pc m = done (record m { result = record (m.result) { status = invalid } })

-- One round of the loop: on with the next PC, or to `finish`.
pub data Round : Type 0 where
  on : ℕ → Machine → Round
  finish : Machine → Round

unfoldable pub settle : Opcode → ℕ → Effect → Round
unfolding log
settle op pc (go token next m) = on next (record m { result = log m.result step op pc token })
settle op pc (fault t token m) = finish (record m {
  result = log (record (m.result) { trap = t; status = trapped }) trap_event op pc token;
})
settle op pc (done m) = finish m

unfoldable pub round : Insn → ℕ → Machine → Round
unfolding exec settle
round x pc m = settle x.op pc (exec x.op x pc (record m { result = record (m.result) { pc = pc } }))

-- The loop; `none` means that the fuel ran out. A PC outside the program ends it.
unfoldable pub loop : ℕ → List Insn → ℕ → Machine → Option Machine
loop zero p pc m = none
loop (suc f) p pc m = elim (get_elem? p pc) [
  | none ↦ some m
  | some x ↦ elim (round x pc m) [ on next m' ↦ loop f p next m' | finish m' ↦ some m' ]
]

-- The effects of terminal cleanup on cell `i`, before its event.
unfoldable pub clean_at : ℕ → Machine → Machine
clean_at i m = record m {
  live = store m.live i false;
  result = record (m.result) {
    object_refs = m.result.object_refs - 1;
    cleanup_releases = m.result.cleanup_releases + 1;
    cleanup_by_cell = store m.result.cleanup_by_cell i (m.result.cleanup_by_cell i + 1);
  };
}

abbrev pub logs : Machine → EventKind → Opcode → ℕ → ℕ → Machine
logs m k op pc token = record m { result = log m.result k op pc token }

-- The body of the cleanup loop.
unfoldable pub clean_cell : ℕ → Machine → Machine
unfolding clean_at
clean_cell i m = if m.live i then logs (clean_at i m) cleanup release m.result.pc (i + 1) else m

-- `k` rounds from `i`.
unfoldable pub clean : ℕ → ℕ → Machine → Machine
clean zero i m = m
clean (suc k) i m = clean k (i + 1) (clean_cell i m)

unfoldable pub start : Machine
start = record { regs = λ _. 0; spills = λ _. 0; live = λ _. false; result = fresh }

unfoldable pub finish_run : Option Machine → Option Result
finish_run none = none
finish_run (some m) = some (clean m.result.acquired 0 m).result

unfoldable pub run_list : List Insn → Option Result
run_list p = finish_run (loop (suc (length p)) p 0 start)

unfoldable pub program : Option (List Insn) → List Insn
program none = List.[]
program (some p) = p

-- `none` means that the loop did not end within its fuel.
unfoldable pub cbpf_run : Option (List Insn) → Option Result
cbpf_run p = elim (cbpf_validate p) [
  | rejected i ↦ some (record fresh { status = invalid; pc = i })
  | accepted ↦ run_list (program p)
]
