-- ===== src/Native/Whole.antt =====
-- linux/ownership/cbpf_jit.c and cbpf_runtime.c together: `cbpf_test_invoke` on a program that the
-- admission pass accepts.
use c_bpf.Base.{
  ℕ, ◌+◌, ◌-◌, ◌^◌, ◌%◌, ◌≤◌, ◌<◌, ◌≡◌, ◌∙◌, refl, true, false, none, List, arith, if◌then◌else◌,
  length,
}
use c_bpf.Cheri.{IsCheri}
use c_bpf.Jit.{BpfInsn}
use c_bpf.Jit.Admit.{Linkage, Table, admit, admitted}
use c_bpf.Jit.Execution.{cleared, here}
use c_bpf.Runtime.{Kernel, IsRefcount, Machine, Cpu}
use c_bpf.Runtime.Invariant.{IsAccounted}
use c_bpf.Runtime.Invoke.{
  Execution, run_calls, prog_run, initial, conclude, invoke, cbpf_test_invoke,
}
use c_bpf.Runtime.Teardown.{
  run_calls-IsAccounted, initial-IsAccounted, conclude_value, IsClean, test_invoke-IsClean,
  when_idle-none,
}
use c_bpf.Native.{Ending, ended, aborted, broken, Run, native_run}
use c_bpf.Native.Calls.{Follows, native_run-Follows}

module _ (k : Kernel) where
  -- The invocation after `cbpf_enter`.
  abbrev pub entering : ℕ → Cpu k → Machine k
  unfolding initial
  entering prog u = record {
    s = record (initial k prog) { entered = true };
    refs = u.refs;
    lines = u.lines;
  }

  -- The program from its first instruction, with as much fuel as it has instructions.
  unfoldable pub native : Linkage → List BpfInsn → ℕ → Cpu k → Run k
  unfolding native_run
  native l p prog u = native_run k (length p) l p 0 cleared (entering prog u)

  -- `bpf_prog_run` gives a 32-bit number.
  abbrev pub scalar_of : Ending k → ℕ
  scalar_of (ended n m) = n % 2 ^ 32
  scalar_of (aborted m) = 0
  scalar_of broken = 0

  -- What `bpf_prog_run` does when it runs the code of such a program.
  abbrev pub execution : Run k → Execution k
  execution r = record { enters = true; calls = r.0; scalar = scalar_of r.1 }

  -- The value that an invocation returns for a run that ends so.
  abbrev pub Returns : Ending k → ℕ → Type 0
  Returns (ended n m) v = v ≡ n % 2 ^ 32
  Returns (aborted m) v = v ≡ 0
  Returns broken v = ⊥

module _ (k : Kernel) (base : ℕ) (laws : IsCheri k.cheri) (counts : IsRefcount k.refcount)
    (base_pos : 0 < base) (base_small : base + 2 ≤ 2 ^ 31 - 1) where
  concluded :
      (m : Machine k) (r : Run k)
      → IsAccounted k base m
      → m.s.failed ≡ false
      → m.s.entered ≡ true
      → Follows k laws m r
      → let e = run_calls k r.0 m in
        Returns k r.1 (conclude k (e.0, if e.1 then 0 else scalar_of k r.1)).value
  concluded m (cs, ended n m') v f g h =
      conclude_value k base laws counts base_pos base_small _ _
        (run_calls-IsAccounted k base laws counts base_pos base_small cs m v)
      ∙ ground (arith, h.calls, h.entered, h.failed)
  concluded m (cs, aborted m') v f g h =
      conclude_value k base laws counts base_pos base_small _ _
        (run_calls-IsAccounted k base laws counts base_pos base_small cs m v)
      ∙ ground (arith, h)
  concluded m (cs, broken) v f g h = h

  -- On an idle CPU, where the object's count is a positive `base` that two more references do not
  -- saturate, let `r` be the run, on the gates of the runtime and from the state behind `cbpf_enter`,
  -- of a marked program that the admission pass accepts. When `bpf_prog_run` makes the calls of `r`
  -- and gives the low 32 bits of its result, `cbpf_test_invoke` leaves the CPU idle, the count at `base`
  -- and no tagged capability in the cells and views of its `struct cbpf_invocation`. With as much fuel
  -- as the program has instructions, `r` either exits with a number, whose low 32 bits
  -- `cbpf_test_invoke` then returns, or leaves at a gate's failure, when that returns 0.
  pub admitted-test_invoke :
      (l : Linkage) (p : List BpfInsn) (T : Table) (prog : ℕ) (u : Cpu k)
      → admit l p ≡ admitted T
      → u.active ≡ none
      → k.refcount.value u.refs ≡ base
      → let r = native k l p prog u in
        let v = cbpf_test_invoke k prog true (execution k r) u in
        IsClean k base laws counts base_pos base_small v × Returns k r.1 v.value
  unfolding cbpf_test_invoke invoke prog_run native native_run
  admitted-test_invoke l p T prog u e idle refs =
      let r = native k l p prog u in
      (
        test_invoke-IsClean k base laws counts base_pos base_small prog true (execution k r) u idle
            refs,
        rw (when_idle-none k base laws counts base_pos base_small u.active _ _ idle) (
            concluded (entering k prog u) r account (unfold initial in refl) refl (
              native_run-Follows k laws l p T e (length p) 0 cleared (entering k prog u)
                (omega arith) here)),
      )
    where
      account : IsAccounted k base (entering k prog u)
      account =
          let v = initial-IsAccounted k base laws counts base_pos base_small prog u refs in
          record { room = v.room; refs = v.refs; released = v.released; unissued = v.unissued }
