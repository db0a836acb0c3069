-- ===== src/Runtime/Invoke.antt =====
-- linux/ownership/cbpf_runtime.c, `cbpf_test_invoke`, and what `cbpf_gateway` does with a failure.
-- `bpf_prog_run` runs generated code: an `Execution` says which gates it calls and what it returns.
use c_bpf.Base.{
  ℕ, zero, suc, ◌+◌, Bool, true, false, not, ◌||◌, Option, none, some, List, [], ◌∷◌, ◌==◌,
  if◌then◌else◌, store,
}
use c_bpf.Runtime.{
  Kernel, Cap, Invocation, Machine, Cpu, fails, exits, u64_max, gate, cbpf_consume, cbpf_trace,
}

module _ (k : Kernel) where
  pub record Call : Type 0 where
    pub argument : Cap k
    pub operation : ℕ
    pub pc : ℕ

  -- `enters` says whether the program calls `cbpf_enter` and is let in.
  pub record Execution : Type 0 where
    pub enters : Bool
    pub calls : List Call
    pub scalar : ℕ

  -- The calls in turn. The gateway tests the low 64 bits of the answer, and on a failure skips the
  -- rest of the program; the flag says that it did.
  unfoldable pub run_calls : List Call → Machine k → Machine k × Bool
  run_calls [] m = (m, false)
  run_calls (c ∷ cs) m =
      let r = gate k c.argument c.operation c.pc m in
      let rest = run_calls cs r.0 in if k.address_get r.1 == u64_max then (r.0, true) else rest

  -- The machine after `bpf_prog_run`, and its result.
  unfoldable pub prog_run : Execution → Machine k → Machine k × ℕ
  unfolding run_calls
  prog_run e m =
      let r = run_calls e.calls (record m { s = record (m.s) { entered = true } }) in
      if e.enters then (r.0, if r.1 then 0 else e.scalar) else (m, 0)

  unfoldable pub teardown_cell : ℕ → Machine k → Machine k
  teardown_cell i m = if k.tag_get (m.s.cells i) then cbpf_consume k i u64_max true m else m

  -- The trusted teardown: `r` rounds from `i`.
  unfoldable pub teardown : ℕ → ℕ → Machine k → Machine k
  teardown zero i m = m
  teardown (suc r) i m = teardown r (i + 1) (teardown_cell i m)

  unfoldable pub judge : Machine k → Machine k
  judge m =
      if not m.s.entered || not (m.s.acquired == m.s.released)
      then record m { s = record (m.s) { failed = true } }
      else m

  -- `state.cells[index].object = 0; state.views[index] = 0;`
  unfoldable pub wipe : Invocation k → Invocation k
  wipe s = record s {
    cells = store (store s.cells 0 k.null) 1 k.null;
    views = store (store s.views 0 k.null) 1 k.null;
  }

  unfoldable pub initial : ℕ → Invocation k
  initial prog = record {
    prog = prog;
    cells = λ _. k.null;
    views = λ _. k.null;
    acquired = 0;
    released = 0;
    reads = 0;
    cleanup = 0;
    sequence = 0;
    entered = false;
    failed = false;
  }

  -- The CPU afterwards, the value returned, and what is left in the local variable `state`. Beside it
  -- in the stack frame are `saved_rddc` and `saved_rcsp`, which keep their capabilities and which
  -- Runtime/Registers has.
  pub record Invoked : Type 0 where
    pub cpu : Cpu k
    pub value : ℕ
    pub state : Invocation k

  -- The teardown, the verdict and the last line.
  unfoldable pub settle : Machine k → Machine k
  unfolding teardown judge
  settle m = judge (teardown m.s.acquired 0 m)

  unfoldable pub report : Machine k → Machine k
  unfolding cbpf_trace
  report m = cbpf_trace k (if m.s.failed then fails else exits) u64_max 0 m

  unfoldable pub conclude : Machine k × ℕ → Invoked
  unfolding settle report wipe
  conclude (m, result) = record {
    cpu = record {
      active = none;
      refs = (report (settle m)).refs;
      lines = (report (settle m)).lines;
    };
    value = if (settle m).s.failed then 0 else result;
    state = wipe (report (settle m)).s;
  }

  unfoldable pub invoke : ℕ → Execution → Cpu k → Invoked
  unfolding prog_run initial conclude
  invoke prog e u =
      conclude (prog_run e (record { s = initial prog; refs = u.refs; lines = u.lines }))

  -- The first test: `this_cpu_read(cbpf_active)`.
  unfoldable pub when_idle : Option (Invocation k) → Invoked → Invoked → Invoked
  when_idle (some s) run refused = refused
  when_idle none run refused = run

  -- A busy CPU, or a program without the mark, returns 0 and nothing changes.
  unfoldable pub cbpf_test_invoke : ℕ → Bool → Execution → Cpu k → Invoked
  unfolding invoke when_idle
  cbpf_test_invoke prog marked e u =
      let refused : Invoked = record { cpu = u; value = 0; state = initial prog } in
      let run : Invoked = invoke prog e u in
      when_idle u.active (if marked then run else refused) refused
