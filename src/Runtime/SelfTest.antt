-- ===== src/Runtime/SelfTest.antt =====
-- linux/ownership/cbpf_runtime.c: the controls at boot, `cbpf_guard_check` and
-- `cbpf_callback_check`. The answer and the CPU are kept; the lines that they print are left out.
use c_bpf.Base.{
  ℕ, zero, suc, ◌+◌, ◌*◌, ◌%◌, ◌^◌, Bool, true, false, not, ◌&&◌, ◌||◌, Option, none, some, ◌==◌,
  if◌then◌else◌, store,
}
use c_bpf.Runtime.{Kernel, Cap, Machine, Cpu, gate, cbpf_fail, u64_max}
use c_bpf.Runtime.Invoke.{initial, teardown}

module _ (k : Kernel) where
  -- The test on the CPU and the count, and then the state with which a control begins.
  unfoldable pub begins : Cpu k → Option (Machine k)
  unfolding initial
  begins u = elim u.active [
    | some s ↦ none
    | none ↦
        if k.refcount.value u.refs == 1
        then some
            (record { s = record (initial k 0) { entered = true }; refs = u.refs; lines = u.lines })
        else none
  ]

  -- The label `out` of an active control: both cells are torn down and the CPU is idle again.
  unfoldable pub close : Machine k → Cpu k
  close m = let m' = teardown k 2 0 m in record { active = none; refs = m'.refs; lines = m'.lines }

  abbrev pub counts : ℕ → ℕ → ℕ → ℕ → Machine k → Bool
  counts acquired released reads refs m =
      m.s.acquired == acquired
      && m.s.released == released
      && m.s.reads == reads
      && m.s.cleanup == 0
      && k.refcount.value m.refs == refs

  -- A consumed identity whose public capability remains intact.
  abbrev pub consumed : ℕ → Cap k → Machine k → Bool
  consumed i alias m =
      k.tag_get alias && k.is_equal_exact alias (m.s.views i) && not (k.tag_get (m.s.cells i))

  unfoldable pub guard_use : ℕ → Cap k → Machine k → Cpu k × Bool
  unfolding close
  guard_use operation alias m =
      let r = gate k alias operation 2 m in
      let pass =
        k.address_get r.1 == u64_max
        && r.0.s.failed
        && consumed 0 alias r.0
        && counts 1 1 0 1 r.0 in
      if consumed 0 alias m && counts 1 1 0 1 m then (close r.0, pass) else (close m, false)

  unfoldable pub guard_release : ℕ → Cap k → Machine k → Cpu k × Bool
  unfolding close guard_use
  guard_release operation original m =
      let r = gate k original 3 1 m in
      if not (k.address_get r.1 == 0) || r.0.s.failed
      then (close r.0, false)
      else guard_use operation original r.0

  unfoldable pub guard_acquire : ℕ → Machine k → Cpu k × Bool
  unfolding close guard_release
  guard_acquire operation m =
      let r = gate k (k.integer 0) 1 0 m in
      if r.0.s.failed || not (k.tag_get r.1) || not (counts 1 0 0 2 r.0)
      then (close r.0, false)
      else guard_release operation r.1 r.0

  -- `cbpf_guard_check`; the alias that goes through the spill comes back as it was.
  unfoldable pub cbpf_guard_check : ℕ → Cpu k → Cpu k × Bool
  unfolding begins guard_acquire
  cbpf_guard_check operation u = elim (begins u) [
    | none ↦ (u, false)
    | some m ↦ guard_acquire operation m
  ]

  pub record Context : Type 0 where
    pub aliases : ℕ → Cap k
    pub calls : ℕ
    pub completed : ℕ
    pub value : ℕ
    pub independent : Bool

  -- A state, a context and whether the callback succeeded.
  pub record Called : Type 0 where
    pub machine : Machine k
    pub context : Context
    pub succeeded : Bool

  abbrev pub finishes : Cap k → ℕ → Context → Machine k → Called
  finishes alias pc c m =
      let r = gate k alias 3 pc m in
      record { machine = r.0; context = c; succeeded = not r.0.s.failed }

  -- The read of the second acquisition, and its release.
  unfoldable pub reads_first : Cap k → ℕ → Context → Machine k → Called
  reads_first alias pc c m =
      let r = gate k alias 2 pc m in
      if r.0.s.failed
      then record { machine = r.0; context = c; succeeded = false }
      else finishes alias (pc + 1) (record c { value = k.address_get r.1 % 2 ^ 32 }) r.0

  unfoldable pub cbpf_ownership_callback : ℕ → Context → Machine k → Called
  unfolding reads_first cbpf_fail
  cbpf_ownership_callback iteration c₀ m =
      let index = if c₀.independent then iteration else 0 in
      let pc = 4 + 2 * iteration in
      let alias = c₀.aliases index in
      let c : Context = record c₀ { calls = c₀.calls + 1 } in
      if not (k.is_equal_exact alias (m.s.views index)) || not (k.tag_get alias)
      then record { machine = (cbpf_fail k pc m).0; context = c; succeeded = false }
      else if c.independent && iteration == 1
      then reads_first alias pc c m
      else finishes alias pc c m

  -- `n` rounds from `iteration`.
  unfoldable pub cbpf_dispatch_callbacks : ℕ → ℕ → Context → Machine k → Called
  cbpf_dispatch_callbacks zero iteration c m = record { machine = m; context = c; succeeded = true }
  cbpf_dispatch_callbacks (suc n) iteration c m =
      let r = cbpf_ownership_callback iteration c m in
      let rest =
        cbpf_dispatch_callbacks n (iteration + 1)
          (record (r.context) { completed = r.context.completed + 1 }) r.machine in
      if r.succeeded then rest else r

  -- The acquisitions: `n` rounds from `index`.
  unfoldable pub fills : ℕ → ℕ → Context → Machine k → Called
  fills zero index c m = record { machine = m; context = c; succeeded = true }
  fills (suc n) index c m =
      let r = gate k (k.integer 0) 1 index m in
      let c' : Context = record c { aliases = store c.aliases index r.1 } in
      let rest = fills n (index + 1) c' r.0 in
      if r.0.s.failed || not (k.tag_get r.1)
      then record { machine = r.0; context = c'; succeeded = false }
      else rest

  unfoldable pub all_consumed : ℕ → ℕ → Context → Machine k → Bool
  all_consumed zero i c m = true
  all_consumed (suc n) i c m = consumed i (c.aliases i) m && all_consumed n (i + 1) c m

  abbrev pub same : Bool → Bool → Bool
  same true b = b
  same false b = not b

  -- The verdict, with `n` acquisitions.
  unfoldable pub dispatched : Bool → ℕ → Called → Bool
  unfolding all_consumed
  dispatched independent n r =
      same r.succeeded independent
      && same r.machine.s.failed (not independent)
      && r.context.calls == 2
      && r.context.completed == (if independent then 2 else 1)
      && r.context.value == (if independent then 42 else 0)
      && counts n n (if independent then 1 else 0) 1 r.machine
      && all_consumed n 0 r.context r.machine

  unfoldable pub callback_run : Bool → Machine k → Cpu k × Bool
  unfolding fills cbpf_dispatch_callbacks dispatched close
  callback_run independent m =
      let n = if independent then 2 else 1 in
      let empty : Context = record {
        aliases = λ _. k.null;
        calls = 0;
        completed = 0;
        value = 0;
        independent = independent;
      } in
      let f = fills n 0 empty m in
      let r = cbpf_dispatch_callbacks (if independent then 2 else 3) 0 f.context f.machine in
      if f.succeeded
      then (close r.machine, dispatched independent n r)
      else (close f.machine, false)

  unfoldable pub cbpf_callback_check : Bool → Cpu k → Cpu k × Bool
  unfolding begins callback_run
  cbpf_callback_check independent u = elim (begins u) [
    | none ↦ (u, false)
    | some m ↦ callback_run independent m
  ]

  -- The controls that `cbpf_cap_init` runs, each on the CPU that the last has left, up to one that
  -- fails.
  unfoldable pub controls_pass : Cpu k → Bool
  unfolding cbpf_guard_check cbpf_callback_check
  controls_pass u =
      let a = cbpf_guard_check 2 u in
      let b = cbpf_guard_check 2 a.0 in
      let c = cbpf_guard_check 3 b.0 in
      let d = cbpf_callback_check false c.0 in
      let e = cbpf_callback_check true d.0 in a.1 && b.1 && c.1 && d.1 && e.1
