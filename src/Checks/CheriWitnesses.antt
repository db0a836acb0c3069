-- ===== src/Checks/CheriWitnesses.antt =====
-- The theorems on the CHERI demonstration at a concrete machine and processes that work.
use c_bpf.Base.{
  ℕ, ◌<◌, ◌≡◌, ◌+◌, ◌*◌, ◌↔◌, refl, true, false, not, ◌&&◌, if◌then◌else◌, none, some, arith,
}
use c_bpf.CheriDemo.{
  Platform, Processes, State, initial, main, expect_stale_fault, resolve_read, faulted, sigsegv,
  cbpf_segv_captagerr,
}
use c_bpf.CheriDemo.Stale.{Works, expect_stale_fault_iff}
use c_bpf.CheriDemo.Passing.{IsPlatform, main_passes}
use c_bpf.Checks.Toy.{toy_cheri, toy_cheri-IsCheri, root_cap, integer}

abbrev toy_platform : Platform
toy_platform = record {
  cheri = toy_cheri;
  pointer_size = 16;
  int_size = 4;
  live = record (root_cap 7) { address = 512 };
  private = λ i. record (root_cap 7) { address = 1000 + 16 * i };
  cell_size = 16;
  cleared_perms = 2;
  refuses = λ a. if a.tag && not a.sealed then none else some (11, if a.tag then 2 else 10);
  other_code = 1;
}

toy_platform-IsPlatform : IsPlatform toy_platform
toy_platform-IsPlatform = record {
  pointer_size = refl;
  bounds_address = λ a n. refl;
  clear_tag = λ a n h. ground arith;
  clear_unsealed = λ a n h. h;
  untagged_fault = λ a h. ground arith;
  object_loads = λ t u. refl;
  handle_loads = λ i h t u. refl;
  perms_address = λ a n. refl;
  live_tag = refl;
  live_length = refl;
  cell_tag = λ i h. refl;
  live_unsealed = refl;
  cell_unsealed = λ i h. refl;
  apart = omega arith;
  somewhere = omega arith;
}

abbrev processes : Processes
processes = record {
  pipe = true;
  fork = true;
  sigaction = true;
  written = 8;
  received = λ n. n;
  waited = true;
}

processes-Works : Works processes
processes-Works = record {
  pipe = refl;
  fork = refl;
  sigaction = refl;
  written = refl;
  received = refl;
  waited = refl;
}

main_passes_example :
    (s : State toy_platform) × (main toy_platform processes ≡ some s)
    × (s.allocated ≡ 2)
    × (s.references ≡ 1)
    × (s.effects ≡ 2)
    × ((i : ℕ) → i < 2 → toy_platform.tag_get (s.cells i) ≡ false)
main_passes_example =
    main_passes toy_platform toy_cheri-IsCheri toy_platform-IsPlatform processes processes-Works

-- Cell 0 has been consumed: its object keeps its address and has lost its tag.
abbrev consumed : State toy_platform
consumed = record (initial toy_platform) { cells = λ i. integer 512; allocated = 1 }

expect_stale_fault_iff_example :
    (expect_stale_fault toy_platform processes (toy_platform.private 0) consumed ≡ some true) ↔ (
      Works processes
      × (resolve_read toy_platform (toy_platform.private 0) consumed
          ≡ faulted sigsegv cbpf_segv_captagerr))
expect_stale_fault_iff_example =
    expect_stale_fault_iff toy_platform processes (toy_platform.private 0) consumed
