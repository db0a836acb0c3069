-- ===== src/Checks/EnterWitnesses.antt =====
-- The theorems on `cbpf_enter` of linux/ownership/cbpf_runtime.c at a concrete request.
use c_bpf.Base.{◌≡◌, refl, Option, some, List, [], ◌∷◌}
use c_bpf.Runtime.{Invocation, cbpf_exact}
use c_bpf.Runtime.Enter.{
  Site, Request, einval, Entered, refused, enters, unfit, bad_caller, unrepresentable, unsealed,
  entered_with, cbpf_enter, enter,
}
use c_bpf.Runtime.Invoke.{Call, run_calls, initial}
use c_bpf.Runtime.Confinement.{Confined, enter-Confined, enter_once}
use c_bpf.Checks.Toy.{toy_cheri-IsCheri, toy_kernel, root_cap, integer}

abbrev site : Site toy_kernel
site = record {
  execute = 1;
  executive = 2;
  load = 4;
  store = 8;
  load_cap = 16;
  store_cap = 32;
  global = 64;
  perms_write = 40;
  gateway = 1500;
  pcc = root_cap 127;
  caller_lr = 100;
}

abbrev request : Request
request = record {
  stack_base = 1600;
  stack_size = 16;
  ret_addr = 200;
  executive_return_size = 40;
  outer_return_addr = 400;
  prog_cookie = 9;
}

abbrev waiting : Invocation toy_kernel
unfolding initial
waiting = initial toy_kernel 9

abbrev entered : Entered toy_kernel site
unfolding entered_with
entered = entered_with toy_kernel site request waiting

lets_in : cbpf_enter toy_kernel site request (some waiting) ≡ enters entered
unfolding cbpf_enter enter unfit bad_caller unrepresentable unsealed cbpf_exact waiting
lets_in = refl

enter-Confined_example :
    (s : Invocation toy_kernel) × (Path (Option (Invocation toy_kernel)) (some waiting) (some s))
    × Confined toy_kernel toy_cheri-IsCheri site request s entered
enter-Confined_example =
    enter-Confined toy_kernel toy_cheri-IsCheri site request (some waiting) entered lets_in

-- A call of the program that has been let in.
abbrev acquisition : List (Call toy_kernel)
acquisition = record { argument = integer 0; operation = 1; pc = 0 } ∷ []

enter_once_example :
    cbpf_enter toy_kernel site request
      (some (run_calls toy_kernel acquisition (record { s = entered.s; refs = 1; lines = [] })).0.s)
    ≡ refused einval
enter_once_example =
    enter_once toy_kernel toy_cheri-IsCheri site request request (some waiting) entered acquisition
      1 [] lets_in
