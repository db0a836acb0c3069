-- ===== src/Checks/NativeWitnesses.antt =====
-- The theorems on admitted programs that call the gates, at a concrete program and machine.
use c_bpf.Base.{ℕ, ◌≡◌, refl, none, true, List, [], ◌∷◌, arith}
use c_bpf.Runtime.{Cpu, gate, cbpf_exact, cbpf_fail, resolve}
use c_bpf.Runtime.Invoke.{Call, initial, cbpf_test_invoke}
use c_bpf.Native.{Run, native_run, turn, through_gate}
use c_bpf.Jit.Execution.{execute}
use c_bpf.Jit.Admit.{call_operation}
use c_bpf.Runtime.Teardown.{IsClean}
use c_bpf.Native.Whole.{native, execution, Returns, admitted-test_invoke}
use c_bpf.Checks.Toy.{toy_kernel, toy_cheri-IsCheri, toy_refcount-IsRefcount}
use c_bpf.Checks.JitWitnesses.{linkage, acquire_release, table, acquire_release_admitted}

abbrev resting : Cpu toy_kernel
resting = record { active = none; refs = 1; lines = [] }

admitted-test_invoke_example :
    let r = native toy_kernel linkage acquire_release 9 resting in
    let v = cbpf_test_invoke toy_kernel 9 true (execution toy_kernel r) resting in
    IsClean toy_kernel 1 toy_cheri-IsCheri toy_refcount-IsRefcount (omega arith) (omega arith) v
    × Returns toy_kernel r.1 v.value
admitted-test_invoke_example =
    admitted-test_invoke toy_kernel 1 toy_cheri-IsCheri toy_refcount-IsRefcount (omega arith)
      (omega arith) linkage acquire_release table 9 resting acquire_release_admitted refl refl

abbrev run_resting : Run toy_kernel
unfolding native
run_resting = native toy_kernel linkage acquire_release 9 resting

abbrev operations : List (Call toy_kernel) → List ℕ
operations [] = []
operations (c ∷ cs) = c.operation ∷ operations cs

-- The program acquires, then releases what it acquired, and does not leave at a failure.
operations_resting : operations run_resting.0 ≡ 1 ∷ 3 ∷ []
unfolding run_resting native native_run turn through_gate gate initial cbpf_exact cbpf_fail resolve
    execute call_operation
operations_resting = refl
