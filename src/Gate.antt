-- ===== src/Gate.antt =====
-- src/gate.c and src/gate.h: the trusted gates. Handles are pointers to cells on the host and
-- capabilities in a purecap build: `Build` holds what the code puts under `#ifdef`.
pub mod Identify
pub mod Metering
pub mod Platform
pub mod Simulation
use c_bpf.Base.{
  ℕ, zero, suc, ◌+◌, ◌-◌, ◌%◌, ◌^◌, Bool, true, false, not, ◌&&◌, Option, none, some, List, ◌==◌,
  flag, if◌then◌else◌, length, get_elem?, store, ℤ, to_word,
}
use c_bpf.Ir
use c_bpf.Ir.{
  Insn, Opcode, acquire, copy, spill, reload, read, release, br_null, return, other, Result, fresh,
  log, EventKind, Trap, null, stale, exhausted, trapped, invalid, step, trap_event, cleanup,
  cbpf_cells,
}
use c_bpf.Ir.Validate.{accepted, rejected, cbpf_validate}
use c_bpf.Reference.{program}
use Platform.{Build}

pub record Metrics : Type 0 where
  pub acquisitions : ℕ
  pub reads : ℕ
  pub releases : ℕ
  pub cleanups : ℕ
  pub restricted_handles : ℕ
  pub tag_clears : ℕ
  pub cell_bytes : ℕ
  pub handle_bytes : ℕ
  pub purecap : Bool
  pub representation_errors : ℕ

pub data Outcome : Type 0 where
  ok null_handle stale_handle exhausted_cells representation : Outcome

module _ (b : Build) where
  -- `struct gate_state`: the object's two fields, the cells and the views.
  pub record State : Type 0 where
    pub value : ℕ
    pub references : ℕ
    pub cells : ℕ → b.Object
    pub views : ℕ → b.Handle

  -- The locals of `cbpf_gate_run`, and what `r` and `m` point to.
  pub record Machine : Type 0 where
    pub state : State
    pub regs : ℕ → b.Handle
    pub spills : ℕ → b.Handle
    pub result : Result
    pub metrics : Metrics

  -- The loop of `identify`: `k` rounds from `i`.
  unfoldable pub find_view : ℕ → ℕ → (ℕ → b.Handle) → b.Handle → Outcome × ℕ
  find_view zero i views view = (representation, 0)
  find_view (suc k) i views view =
      let rest = find_view k (i + 1) views view in
      if b.same_handle view (views i) then (ok, i + 1) else rest

  -- The outcome, and the token that `*token` receives.
  unfoldable pub identify : State → b.Handle → ℕ → Outcome × ℕ
  unfolding find_view
  identify s view acquired =
      if b.same_handle view b.null_handle then (ok, 0) else find_view acquired 0 s.views view

  -- What a gate hands back: the outcome, the token and the state.
  pub record Reply : Type 0 where
    pub outcome : Outcome
    pub token : ℕ
    pub machine : Machine

  abbrev reply : Outcome → ℕ → Machine → Reply
  reply o t m = record { outcome = o; token = t; machine = m }

  -- `(int)x.imm` as a condition.
  unfoldable pub int_nonzero : ℤ → Bool
  int_nonzero v = not (to_word 32 v == 0)

  -- The effects of a successful acquisition, with its view prepared.
  unfoldable pub issue : ℕ → b.Handle → Machine → Machine
  issue dst view m = record m {
    state = record (m.state) {
      cells = store m.state.cells m.result.acquired b.object_ref;
      references = m.state.references + 1;
      views = store m.state.views m.result.acquired view;
    };
    regs = store m.regs dst view;
    result = record (m.result) {
      object_refs = m.state.references + 1;
      acquired = m.result.acquired + 1;
    };
    metrics = record (m.metrics) {
      restricted_handles = m.metrics.restricted_handles + flag b.purecap;
    };
  }

  unfoldable pub acquire_gate : ℕ → Bool → Machine → Reply
  unfolding issue
  acquire_gate dst success m₀ =
      let m : Machine = record m₀ {
        metrics = record (m₀.metrics) { acquisitions = m₀.metrics.acquisitions + 1 };
      } in
      if success
      then if m.result.acquired == cbpf_cells
        then reply exhausted_cells 0 m
        else elim (b.prepare_view m.result.acquired) [
          | none ↦ reply representation 0 m
          | some view ↦ reply ok (m.result.acquired + 1) (issue dst view m)
        ]
      else reply ok 0 (record m { regs = store m.regs dst b.null_handle })

  -- `read_field` once the handle is identified.
  unfoldable pub read_at : ℕ → Machine → Reply
  read_at token m =
      if token == 0
      then reply null_handle 0 m
      else if b.object_is_live (m.state.cells (token - 1))
      then reply ok token (record m {
        result = record (m.result) { last_read = m.state.value; reads = m.result.reads + 1 };
      })
      else reply stale_handle token m

  -- `if (outcome != GATE_OK) return outcome;` before the rest of a gate.
  unfoldable pub when_ok : Outcome × ℕ → (ℕ → Machine → Reply) → Machine → Reply
  when_ok (ok, token) rest m = rest token m
  when_ok (o, token) rest m = reply o token m

  unfoldable pub read_field : b.Handle → Machine → Reply
  unfolding identify read_at when_ok
  read_field view m₀ =
      let m : Machine = record m₀ {
        metrics = record (m₀.metrics) { reads = m₀.metrics.reads + 1 };
      } in
      when_ok (identify m.state view m.result.acquired) read_at m

  -- `consume` on a live cell, the stored authority going first.
  unfoldable pub consume_at : ℕ → Bool → Machine → Machine
  consume_at i in_cleanup m = record m {
    state = record (m.state) {
      cells = store m.state.cells i (b.cleared (m.state.cells i));
      references = m.state.references - 1;
    };
    result = charge (record (m.result) { object_refs = m.state.references - 1 });
    metrics = record (m.metrics) {
      tag_clears = m.metrics.tag_clears + flag b.purecap;
      cleanups = m.metrics.cleanups + flag in_cleanup;
    };
  }
    where
      charge : Result → Result
      charge r =
          if in_cleanup
          then record r {
            cleanup_releases = r.cleanup_releases + 1;
            cleanup_by_cell = store r.cleanup_by_cell i (r.cleanup_by_cell i + 1);
          }
          else record r {
            explicit_releases = r.explicit_releases + 1;
            explicit_by_cell = store r.explicit_by_cell i (r.explicit_by_cell i + 1);
          }

  unfoldable pub release_at : ℕ → Machine → Reply
  unfolding consume_at
  release_at token m =
      if token == 0
      then reply null_handle 0 m
      else if b.object_is_live (m.state.cells (token - 1))
      then reply ok token (consume_at (token - 1) false m)
      else reply stale_handle token m

  unfoldable pub release_gate : b.Handle → Machine → Reply
  unfolding identify release_at when_ok
  release_gate view m₀ =
      let m : Machine = record m₀ {
        metrics = record (m₀.metrics) { releases = m₀.metrics.releases + 1 };
      } in
      when_ok (identify m.state view m.result.acquired) release_at m

  -- How the switch is left: with a gate's reply and the next PC, or to the label `finish`.
  pub data Effect : Type 0 where
    replies : Reply → ℕ → Effect
    done : Machine → Effect

  -- The reply of a transport instruction, once the handle `view` has been written.
  unfoldable pub identified : b.Handle → Machine → Reply
  unfolding identify
  identified view m =
      let r = identify m.state view m.result.acquired in
      record { outcome = r.0; token = r.1; machine = m }

  unfoldable pub branches : Outcome → ℕ → Bool
  branches ok token = token == 0
  branches _ token = false

  unfoldable pub exec : Opcode → Insn → ℕ → Machine → Effect
  unfolding acquire_gate read_field release_gate identified branches int_nonzero log
  exec acquire x pc m = replies (acquire_gate x.dst (int_nonzero x.imm) m) (pc + 1)
  exec copy x pc m =
      replies (identified (m.regs x.src) (record m { regs = store m.regs x.dst (m.regs x.src) }))
        (pc + 1)
  exec spill x pc m =
      replies
        (identified (m.regs x.src) (record m { spills = store m.spills x.dst (m.regs x.src) }))
        (pc + 1)
  exec reload x pc m =
      replies
        (identified (m.spills x.src) (record m { regs = store m.regs x.dst (m.spills x.src) }))
        (pc + 1)
  exec read x pc m = replies (read_field (m.regs x.dst) m) (pc + 1)
  exec release x pc m = replies (release_gate (m.regs x.dst) m) (pc + 1)
  exec br_null x pc m =
      let r = identified (m.regs x.dst) m in
      replies r (if branches r.outcome r.token then to_word 64 x.imm else pc + 1)
  exec return x pc m = done (record m {
    result =
        log (record (m.result) { returned = x.imm; status = Ir.Status.returned }) step return pc 0;
  })
  exec (other k) x pc m = done (record m { result = record (m.result) { status = invalid } })

  pub data Round : Type 0 where
    on : ℕ → Machine → Round
    finish : Machine → Round

  abbrev pub faults : Trap → Opcode → ℕ → ℕ → Machine → Round
  faults t op pc token m = finish (record m {
    result = log (record (m.result) { status = trapped; trap = t }) trap_event op pc token;
  })

  unfoldable pub settle_reply : Opcode → ℕ → ℕ → Outcome → ℕ → Machine → Round
  unfolding log
  settle_reply op pc next ok token m = on next (record m { result = log m.result step op pc token })
  settle_reply op pc next null_handle token m = faults null op pc token m
  settle_reply op pc next stale_handle token m = faults stale op pc token m
  settle_reply op pc next exhausted_cells token m = faults exhausted op pc token m
  settle_reply op pc next representation token m = finish (record m {
    result = record (m.result) { status = invalid };
    metrics = record (m.metrics) { representation_errors = m.metrics.representation_errors + 1 };
  })

  unfoldable pub settle : Opcode → ℕ → Effect → Round
  unfolding settle_reply
  settle op pc (replies r next) = settle_reply op pc next r.outcome r.token r.machine
  settle op pc (done m) = finish m

  unfoldable pub round : Insn → ℕ → Machine → Round
  unfolding exec settle
  round x pc m =
      settle x.op pc (exec x.op x pc (record m { result = record (m.result) { pc = pc } }))

  -- The loop; `none` means that the fuel ran out.
  unfoldable pub loop : ℕ → List Insn → ℕ → Machine → Option Machine
  loop zero p pc m = none
  loop (suc f) p pc m = elim (get_elem? p pc) [
    | none ↦ some m
    | some x ↦ elim (round x pc m) [ on next m' ↦ loop f p next m' | finish m' ↦ some m' ]
  ]

  unfoldable pub clean_cell : ℕ → Machine → Machine
  unfolding consume_at log
  clean_cell i m =
      let m' = consume_at i true m in
      if b.object_is_live (m.state.cells i)
      then record m' { result = log m'.result cleanup release m'.result.pc (i + 1) }
      else m

  unfoldable pub clean : ℕ → ℕ → Machine → Machine
  clean zero i m = m
  clean (suc k) i m = clean k (i + 1) (clean_cell i m)

  abbrev pub fresh_metrics : Metrics
  fresh_metrics = record {
    acquisitions = 0;
    reads = 0;
    releases = 0;
    cleanups = 0;
    restricted_handles = 0;
    tag_clears = 0;
    cell_bytes = b.cell_bytes;
    handle_bytes = b.handle_bytes;
    purecap = b.purecap;
    representation_errors = 0;
  }

  unfoldable pub start : Machine
  start = record {
    state = record {
      value = 42;
      references = 1;
      cells = λ _. b.null_object;
      views = λ _. b.null_handle;
    };
    regs = λ _. b.null_handle;
    spills = λ _. b.null_handle;
    result = fresh;
    metrics = fresh_metrics;
  }

  unfoldable pub finish_run : Option Machine → Option (Result × Metrics)
  finish_run none = none
  finish_run (some m) = let m' = clean m.result.acquired 0 m in some (m'.result, m'.metrics)

  -- What `*r` and `*metrics` hold at the end.
  unfoldable pub gate_run : Option (List Insn) → Option (Result × Metrics)
  unfolding finish_run program
  gate_run p = elim (cbpf_validate p) [
    | rejected i ↦ some (record fresh { status = invalid; pc = i }, fresh_metrics)
    | accepted ↦ finish_run (loop (suc (length (program p))) (program p) 0 start)
  ]
