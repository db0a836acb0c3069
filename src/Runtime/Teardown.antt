-- ===== src/Runtime/Teardown.antt =====
-- linux/ownership/cbpf_runtime.c, `cbpf_test_invoke`: its `struct cbpf_invocation` when it is over.
use mathlib.Core.Path.{subst}
use c_bpf.Base.{
  ap, sym, Option, ℕ, zero, suc, ◌+◌, ◌-◌, ◌^◌, ◌≤◌, ◌<◌, ◌≡◌, refl, Bool, true, false, not, ◌||◌,
  ◌⊎◌, inl, inr, none, some, List, [], ◌∷◌, arith, Bool-cases, ◌==◌, if◌then◌else◌, if_rule, ◌∙◌,
}
use c_bpf.Cheri.{IsCheri}
use c_bpf.Runtime.{
  Kernel, IsRefcount, Machine, Invocation, Cpu, gate, cbpf_consume, cbpf_trace, u64_max,
}
use c_bpf.Runtime.Invariant.{IsAccounted, gate-IsAccounted, cbpf_consume-IsAccounted}
use c_bpf.Runtime.Invoke.{
  Call, Execution, run_calls, prog_run, teardown_cell, teardown, judge, wipe, initial, settle,
  report, conclude, invoke, Invoked, when_idle, cbpf_test_invoke,
}

module _ (k : Kernel) (base : ℕ) (laws : IsCheri k.cheri) (counts : IsRefcount k.refcount)
    (base_pos : 0 < base) (base_small : base + 2 ≤ 2 ^ 31 - 1) where
  pub run_calls-IsAccounted :
      (cs : List (Call k)) (m : Machine k)
      → IsAccounted k base m
      → IsAccounted k base (run_calls k cs m).0
  unfolding run_calls
  run_calls-IsAccounted [] m v = v
  run_calls-IsAccounted (c ∷ cs) m v =
      let v' =
        gate-IsAccounted k base laws counts base_pos base_small c.argument c.operation c.pc m v in
      elim (Bool-cases (k.address_get (gate k c.argument c.operation c.pc m).1 == u64_max)) [
        | inl e ↦ rw e v'
        | inr e ↦ rw e (run_calls-IsAccounted cs _ v')
      ]

  prog_run-IsAccounted :
      (e : Execution k) (m : Machine k)
      → IsAccounted k base m
      → IsAccounted k base (prog_run k e m).0
  unfolding prog_run
  prog_run-IsAccounted e m v = elim (Bool-cases e.enters) [
    | inl h ↦ rw h (
        run_calls-IsAccounted e.calls _
          (record { room = v.room; refs = v.refs; released = v.released; unissued = v.unissued }))
    | inr h ↦ rw h v
  ]

  -- What `n` rounds of the teardown from cell `i` do.
  record Tears (i n : ℕ) (m m' : Machine k) : Type 0 where
    account : IsAccounted k base m'
    acquired : m'.s.acquired ≡ m.s.acquired
    entered : m'.s.entered ≡ m.s.entered
    failed : m'.s.failed ≡ m.s.failed
    dead :
        (j : ℕ)
        → k.tag_get (m'.s.cells j) ≡ true
        → (k.tag_get (m.s.cells j) ≡ true) × ((j < i) ⊎ (i + n ≤ j))

  consumed :
      (i : ℕ) (m : Machine k) (j : ℕ)
      → k.tag_get ((cbpf_consume k i u64_max true m).s.cells j) ≡ true
      → (k.tag_get (m.s.cells j) ≡ true) × ((j < i) ⊎ (i + 1 ≤ j))
  unfolding cbpf_consume
  consumed i m j h = ground (arith, laws.clear_untagged (m.s.cells i))

  teardown_cell-Tears :
      (i : ℕ) (m : Machine k) → IsAccounted k base m → Tears i 1 m (teardown_cell k i m)
  unfolding teardown_cell
  teardown_cell-Tears i m v = elim (Bool-cases (k.tag_get (m.s.cells i))) [
    | inl l ↦ rw l (record {
      account =
          cbpf_consume-IsAccounted k base laws counts base_pos base_small i u64_max true m l v;
      acquired = unfold cbpf_consume in refl;
      entered = unfold cbpf_consume in refl;
      failed = unfold cbpf_consume in refl;
      dead = consumed i m;
    })
    | inr d ↦ rw d (record {
      account = v;
      acquired = refl;
      entered = refl;
      failed = refl;
      dead = λ j h. (h, ground arith);
    })
  ]

  teardown-Tears : (n i : ℕ) (m : Machine k) → IsAccounted k base m → Tears i n m (teardown k n i m)
  unfolding teardown
  teardown-Tears zero i m v = record {
    account = v;
    acquired = refl;
    entered = refl;
    failed = refl;
    dead = λ j h. (h, ground arith);
  }
  teardown-Tears (suc n) i m v =
      let a = teardown_cell-Tears i m v in
      let b = teardown-Tears n (i + 1) (teardown_cell k i m) a.account in
      record {
        account = b.account;
        acquired = b.acquired ∙ a.acquired;
        entered = b.entered ∙ a.entered;
        failed = b.failed ∙ a.failed;
        dead = λ j h.
            let (before, out) = b.dead j h in
            let (first, out') = a.dead j before in (first, omega arith);
      }

  -- After the teardown no cell holds authority, and every acquisition has been released.
  torn_down :
      (m : Machine k)
      → IsAccounted k base m
      → let m' = teardown k m.s.acquired 0 m in
        (k.refcount.value m'.refs ≡ base)
        × (m'.s.released ≡ m'.s.acquired)
        × (m'.s.entered ≡ m.s.entered)
        × (m'.s.failed ≡ m.s.failed)
  torn_down m v = (
    ground (arith, t.account.refs, dead 0, dead 1),
    ground (arith, t.account.released, dead 0, dead 1),
    t.entered,
    t.failed,
  )
    where
      t : Tears 0 m.s.acquired m (teardown k m.s.acquired 0 m)
      t = teardown-Tears m.s.acquired 0 m v

      dead : (j : ℕ) → k.tag_get ((teardown k m.s.acquired 0 m).s.cells j) ≡ false
      dead j = ground (arith, t.dead j, v.unissued j)

  pub initial-IsAccounted :
      (prog : ℕ) (u : Cpu k)
      → k.refcount.value u.refs ≡ base
      → IsAccounted k base (record { s = initial k prog; refs = u.refs; lines = u.lines })
  unfolding initial
  initial-IsAccounted prog u e = record {
    room = omega arith;
    refs = ground (arith, laws.null_untagged);
    released = ground (arith, laws.null_untagged);
    unissued = λ i h. laws.null_untagged;
  }

  -- The CPU is idle, the object has the references that it had, and the two cells and the two views
  -- of `struct cbpf_invocation` hold no tagged capability.
  pub record IsClean (r : Invoked k) : Type 0 where
    pub idle : r.cpu.active ≡ none
    pub refs : k.refcount.value r.cpu.refs ≡ base
    pub cells : (i : ℕ) → i < 2 → k.tag_get (r.state.cells i) ≡ false
    pub views : (i : ℕ) → i < 2 → k.tag_get (r.state.views i) ≡ false

  judge-refs : (m : Machine k) → (judge k m).refs ≡ m.refs
  unfolding judge
  judge-refs m = ground arith

  wiped :
      (s : Invocation k) (i : ℕ)
      → i < 2
      → (k.tag_get ((wipe k s).cells i) ≡ false) × (k.tag_get ((wipe k s).views i) ≡ false)
  unfolding wipe
  wiped s i h = ground (arith, laws.null_untagged)

  conclude-IsClean : (m : Machine k) (n : ℕ) → IsAccounted k base m → IsClean (conclude k (m, n))
  unfolding conclude settle report cbpf_trace
  conclude-IsClean m n v = record {
    idle = refl;
    refs = ap k.refcount.value (judge-refs (teardown k m.s.acquired 0 m)) ∙ (torn_down m v).0;
    cells = λ i h. (wiped (report k (settle k m)).s i h).0;
    views = λ i h. (wiped (report k (settle k m)).s i h).1;
  }

  -- From an accounted state, the value that `cbpf_test_invoke` returns is the program's result, unless
  -- the program did not enter or a gate rejected a call, when it is 0.
  pub conclude_value :
      (m : Machine k) (n : ℕ)
      → IsAccounted k base m
      → (conclude k (m, n)).value ≡ (if not m.s.entered || m.s.failed then 0 else n)
  unfolding conclude settle judge
  conclude_value m n v = ground (arith, torn_down m v)

  invoke-IsClean :
      (prog : ℕ) (e : Execution k) (u : Cpu k)
      → k.refcount.value u.refs ≡ base
      → IsClean (invoke k prog e u)
  unfolding invoke
  invoke-IsClean prog e u refs =
      conclude-IsClean _ _ (prog_run-IsAccounted e _ (initial-IsAccounted prog u refs))

  pub when_idle-none :
      (o : Option (Invocation k)) (run refused : Invoked k)
      → o ≡ none
      → when_idle k o run refused ≡ run
  unfolding when_idle
  when_idle-none none run refused e = refl
  when_idle-none (some s) run refused e = cc

  -- On an idle CPU, where the object's count is a positive `base` that two more references do not
  -- saturate, `cbpf_test_invoke` leaves the CPU idle, the count at `base` and no tagged capability in
  -- the cells and views of its `struct cbpf_invocation`, whatever gates the program calls, marked or
  -- not. The registers that it saves beside that structure are not meant.
  pub test_invoke-IsClean :
      (prog : ℕ) (marked : Bool) (e : Execution k) (u : Cpu k)
      → u.active ≡ none
      → k.refcount.value u.refs ≡ base
      → IsClean (cbpf_test_invoke k prog marked e u)
  unfolding cbpf_test_invoke
  test_invoke-IsClean prog marked e u idle refs =
      let refused : Invoked k = record { cpu = u; value = 0; state = initial k prog } in
      let run : Invoked k = invoke k prog e u in
      let kept : IsClean refused = record {
        idle = idle;
        refs = refs;
        cells = λ i h. unfold initial in laws.null_untagged;
        views = λ i h. unfold initial in laws.null_untagged;
      } in
      subst IsClean (sym (when_idle-none u.active (if marked then run else refused) refused idle))
        (if_rule IsClean marked run refused (λ _. invoke-IsClean prog e u refs) (λ _. kept))
