-- ===== src/Checks/SelfTests.antt =====
-- The controls at boot of linux/ownership/cbpf_runtime.c pass on a concrete machine.
use c_bpf.Base.{◌≡◌, refl, true, [], none}
use c_bpf.Runtime.{Cpu, gate, cbpf_exact, cbpf_fail, resolve}
use c_bpf.Runtime.Invoke.{teardown, teardown_cell, initial}
use c_bpf.Runtime.SelfTest.{
  controls_pass, close, fills, cbpf_dispatch_callbacks, cbpf_ownership_callback, all_consumed,
}
use c_bpf.Checks.Toy.{toy_kernel}

abbrev booting : Cpu toy_kernel
booting = record { active = none; refs = 1; lines = [] }

controls_pass_here : controls_pass toy_kernel booting ≡ true
unfolding controls_pass gate teardown initial cbpf_exact cbpf_fail resolve close fills
    cbpf_dispatch_callbacks cbpf_ownership_callback all_consumed teardown_cell
controls_pass_here = refl
