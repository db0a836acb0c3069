-- ===== src/Checks/OwnershipWitnesses.antt =====
-- The theorems on the sessions of linux/ownership/guest.c at a kernel that the guest passes on.
use c_bpf.Base.{ℕ, ◌+◌, ◌≡◌, ◌==◌, refl, true, false, some, ltb, if◌then◌else◌, pos}
use c_bpf.KfuncGuest.Programs.{Ids}
use c_bpf.OwnershipGuest.{selected}
use c_bpf.OwnershipGuest.Session.{
  Kernel, Session, opened, refused, run_tests, run_case, after_load, attributable, image_stage,
  execute_stage, main, tests,
}
use c_bpf.OwnershipGuest.Session.Order.{Walk, idle, main-Walk}
use c_bpf.OwnershipGuest.Session.Pass.{AllShown, main-AllShown}

abbrev numbers : Ids
numbers = record { acquire = pos 10; read = pos 11; release = pos 12 }

-- Its state counts the loads. EACCES is 13 and EINVAL 22.
abbrev strict : Kernel
strict = record {
  State = ℕ;
  load = λ insns n. (if ltb n 4 then opened 3 else refused 13, n + 1);
  mentions = λ n p. true;
  info = λ fd n. (record { failed = false; number = 96 }, n);
  test_run = λ fd n.
      (record { failed = false; number = if ltb n 3 then 42 else if n == 3 then 7 else 0 }, n);
  close = λ fd n. n;
  eacces = 13;
  einval = 22;
  pid = 1;
  uname_fails = false;
  release_matches = true;
}

abbrev session : Session strict
unfolding run_tests
session = run_tests strict numbers tests 0

main-strict : main strict numbers 0 ≡ some session
unfolding main session
main-strict = refl

session_passes : session.pass ≡ true
unfolding session run_tests run_case after_load attributable image_stage execute_stage selected
session_passes = refl

main-Walk_example : Walk numbers idle session.events idle
main-Walk_example = main-Walk numbers strict 0 session main-strict

main-AllShown_example : AllShown numbers strict tests session.events
main-AllShown_example = main-AllShown numbers strict 0 session main-strict session_passes
