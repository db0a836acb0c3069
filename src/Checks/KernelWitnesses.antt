-- ===== src/Checks/KernelWitnesses.antt =====
-- The theorems on linux/ownership/cbpf_runtime.c and linux/kfunc/cbpf_kfunc.c at concrete inputs.
use c_bpf.Base.{◌≡◌, refl, inl, true, false, some, none, List, [], ◌∷◌, arith, store}
use c_bpf.Runtime.{Machine, Cpu, gate}
use c_bpf.Runtime.Invariant.{IsAccounted, gate-IsAccounted}
use c_bpf.Runtime.Invoke.{Call, Execution, run_calls, cbpf_test_invoke, conclude}
use c_bpf.Runtime.Teardown.{IsClean, test_invoke-IsClean, conclude_value}
use c_bpf.Runtime.Rejection.{IsRejection, release_revokes_view}
use c_bpf.Kfunc.{Module, cbpf_ref_acquire, find_cell}
use c_bpf.Kfunc.Account
use c_bpf.Kfunc.Account.{acquire-IsAccounted}
use c_bpf.Checks.Toy.{
  ToyCap, integer, toy_cheri-IsCheri, toy_refcount, toy_refcount-IsRefcount, toy_kernel, root_cap,
}

-- The public view of the first cell.
abbrev first_view : ToyCap
first_view = record {
  tag = true;
  sealed = false;
  address = 1000;
  base = 1000;
  length = 16;
  perms = 3;
}

-- An invocation that holds its first acquisition.
abbrev holding : Machine toy_kernel
holding = record {
  s = record {
    prog = 9;
    cells = store (λ _. integer 0) 0 (root_cap 3);
    views = store (λ _. integer 0) 0 first_view;
    acquired = 1;
    released = 0;
    reads = 0;
    cleanup = 0;
    sequence = 1;
    entered = true;
    failed = false;
  };
  refs = 2;
  lines = [];
}

holding-IsAccounted : IsAccounted toy_kernel 1 holding
holding-IsAccounted = record {
  room = omega arith;
  refs = refl;
  released = refl;
  unissued = λ i h. ground arith;
}

gate-IsAccounted_example : IsAccounted toy_kernel 1 (gate toy_kernel first_view 3 5 holding).0
gate-IsAccounted_example =
    gate-IsAccounted toy_kernel 1 toy_cheri-IsCheri toy_refcount-IsRefcount (omega arith)
      (omega arith) first_view 3 5 holding holding-IsAccounted

-- A program that acquires twice, releases the first and leaves the second to the teardown.
abbrev execution : Execution toy_kernel
execution = record {
  enters = true;
  calls =
      record { argument = integer 0; operation = 1; pc = 0 }
      ∷ record { argument = integer 0; operation = 1; pc = 1 }
      ∷ record { argument = first_view; operation = 3; pc = 2 }
      ∷ [];
  scalar = 42;
}

-- An acquisition behind the release of the first view.
abbrev another : List (Call toy_kernel)
another = record { argument = integer 0; operation = 1; pc = 6 } ∷ []

release_revokes_view_example :
    let later = (run_calls toy_kernel another (gate toy_kernel first_view 3 5 holding).0).0 in
    IsRejection toy_kernel toy_cheri-IsCheri later (gate toy_kernel first_view 2 7 later)
release_revokes_view_example =
    release_revokes_view toy_kernel toy_cheri-IsCheri first_view 5 another 2 7 holding (inl refl)
      (omega arith)

abbrev idle : Cpu toy_kernel
idle = record { active = none; refs = 1; lines = [] }

test_invoke-IsClean_example :
    IsClean toy_kernel 1 toy_cheri-IsCheri toy_refcount-IsRefcount
      (omega arith)
      (omega arith)
      (cbpf_test_invoke toy_kernel 9 true execution idle)
test_invoke-IsClean_example =
    test_invoke-IsClean toy_kernel 1 toy_cheri-IsCheri toy_refcount-IsRefcount (omega arith)
      (omega arith) 9 true execution idle refl refl

conclude_value_example : (conclude toy_kernel (holding, 42)).value ≡ 42
conclude_value_example =
    conclude_value toy_kernel 1 toy_cheri-IsCheri toy_refcount-IsRefcount (omega arith)
      (omega arith) holding 42 holding-IsAccounted

abbrev one_cell : Module toy_refcount
one_cell = record {
  cells = record { address = 64; id = 1 } ∷ [];
  refs = 2;
  acquisitions = 1;
  releases = 0;
  live = 1;
  reads = 0;
}

one_cell-IsAccounted : Account.IsAccounted toy_refcount toy_refcount-IsRefcount one_cell
unfolding find_cell
one_cell-IsAccounted = record { apart = (refl, tt); refs = refl; live = refl; balance = refl }

acquire-IsAccounted_example :
    Account.IsAccounted toy_refcount toy_refcount-IsRefcount
      (cbpf_ref_acquire toy_refcount false (some 128) one_cell).0
unfolding find_cell
acquire-IsAccounted_example =
    acquire-IsAccounted toy_refcount toy_refcount-IsRefcount false (some 128) one_cell
      (λ a e. ground arith) (omega arith) one_cell-IsAccounted
