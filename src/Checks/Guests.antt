-- ===== src/Checks/Guests.antt =====
-- Tests of the guests' programs, and the theorems on linux/kfunc/guest.c at concrete inputs.
use c_bpf.Base.{
  ℕ, ◌+◌, ◌≡◌, refl, Bool, true, false, ◌&&◌, Option, none, some, leb, if◌then◌else◌, pos, is,
}
use c_bpf.Jit.Admit.{
  admit, Admission, admitted, refused, admit_loop, initial, finish, record_pass, transfer, join_at,
  forward,
}
use c_bpf.KfuncGuest.{Program}
use c_bpf.KfuncGuest.Programs.{Ids, valid_ab, valid_null, rejected_program}
use c_bpf.KfuncGuest.Session.{Counters, Kernel, main}
use c_bpf.KfuncGuest.Session.Accounting.{Yields, IsPass, main-IsPass}
use c_bpf.OwnershipGuest.{selected}
use c_bpf.Checks.JitWitnesses.{linkage}

-- A number of a kfunc is the address that `linkage` gives it.
abbrev numbers : Ids
numbers = record { acquire = pos 10; read = pos 11; release = pos 12 }

abbrev is_admitted : Admission → Bool
is_admitted (admitted t) = true
is_admitted (refused e) = false

abbrev accepts : ℕ → Bool
unfolding admit selected
accepts test = is_admitted (admit linkage (selected numbers test).0)

-- The admission pass takes the fixtures that are to run.
fixtures_admitted : (accepts 0 && accepts 1 && accepts 2 && accepts 3) ≡ true
unfolding accepts admit admit_loop initial finish record_pass transfer join_at forward selected
fixtures_admitted = refl

-- The counters, and of the program that was loaded last what it returns, acquires and reads.
record Toy : Type 0 where
  counters : Counters
  retval : ℕ
  acquires : ℕ
  reads : ℕ

abbrev taken : Program → ℕ → ℕ → ℕ → Toy → Option ℕ × Toy
taken p v a r s = (some 3, record s { retval = v; acquires = a; reads = r })

-- A kernel that tells the programs apart by their length and two of their immediates.
abbrev toy_kernel : Kernel
toy_kernel = record {
  State = Toy;
  snapshot = λ s. some s.counters;
  load = λ p s.
      if leb 20 p.count
      then if is (p.insns 5).imm 1 then taken p 7 1 0 s else taken p 42 2 1 s
      else if is (p.insns 0).imm 1
      then taken p 0 0 0 s
      else (none, s);
  log_empty = λ s. false;
  mentions = λ s phrase. true;
  jited_len = λ fd s. some 400;
  test_run = λ fd s. (
    some s.retval,
    record s {
      counters = record (s.counters) {
        acquisitions = s.counters.acquisitions + s.acquires;
        releases = s.counters.releases + s.acquires;
        reads = s.counters.reads + s.reads;
      };
    },
  );
}

abbrev toy_start : Toy
toy_start = record {
  counters = record { acquisitions = 0; releases = 0; live = 0; reads = 0; object_refs = 1 };
  retval = 0;
  acquires = 0;
  reads = 0;
}

abbrev is_pass : {A : Type 0} → Option A → Bool
is_pass none = false
is_pass (some x) = true

toy_passes : is_pass (main toy_kernel numbers toy_start) ≡ true
unfolding main valid_ab valid_null rejected_program
toy_passes = refl

main-IsPass_example : Yields (IsPass toy_kernel) (main toy_kernel numbers toy_start)
main-IsPass_example = main-IsPass toy_kernel numbers toy_start
