-- ===== src/GateDemo/Cases.antt =====
-- src/gate_demo.c: the ten families of programs, and what a run of each is expected to report.
use c_bpf.Base.{ℕ, List, [], ◌∷◌, ℤ, pos, negsuc}
use c_bpf.Ir.{
  Insn, Opcode, acquire, copy, spill, reload, read, release, br_null, return, Status, trapped, Trap,
  no_trap, null, stale, exhausted,
}
use c_bpf.Ir
use c_bpf.Demo.{insn}

pub record Expectation : Type 0 where
  pub status : Status
  pub trap : Trap
  pub pc : ℕ
  pub acquired : ℕ
  pub reads : ℕ
  pub releases : ℕ
  pub cleanups : ℕ
  pub returned : ℤ
  pub events : ℕ
  pub explicit_mask : ℕ
  pub cleanup_mask : ℕ

-- `(struct expectation){...}`.
abbrev pub expectation : Status → Trap → ℕ → ℕ → ℕ → ℕ → ℕ → ℤ → ℕ → ℕ → ℕ → Expectation
expectation s t pc a r x c v n em cm = record {
  status = s;
  trap = t;
  pc = pc;
  acquired = a;
  reads = r;
  releases = x;
  cleanups = c;
  returned = v;
  events = n;
  explicit_mask = em;
  cleanup_mask = cm;
}

pub data Family : Type 0 where
  valid_ab stale_copy stale_spill repeated_release null_branch : Family
  consumed_branch overwrite_alias exhaustion null_read null_release : Family

abbrev pub families : List Family
families =
    valid_ab ∷ stale_copy ∷ stale_spill ∷ repeated_release ∷ null_branch ∷ consumed_branch
    ∷ overwrite_alias ∷ exhaustion ∷ null_read ∷ null_release ∷ []

-- The registers `a` to `d` and the spill `slot` of a case.
pub record Places : Type 0 where
  pub a : ℕ
  pub b : ℕ
  pub c : ℕ
  pub d : ℕ
  pub slot : ℕ

-- The four instructions with which the families up to REPEATED_RELEASE begin.
abbrev two_objects : Places → List Insn → List Insn
two_objects x rest =
    insn acquire x.a 0 1
    ∷ insn acquire x.b 0 1
    ∷ insn copy x.c x.a 0
    ∷ insn spill x.slot x.a 0
    ∷ rest

-- What follows in the three of them that use A after its release, by `last`.
abbrev after_release : Places → Insn → List Insn × Expectation
after_release x last = (
  two_objects x (
      insn release x.a 0 0
      ∷ insn read x.b 0 0
      ∷ insn reload x.d x.slot 0
      ∷ last
      ∷ insn release x.b 0 0
      ∷ insn return 0 0 7
      ∷ []),
  expectation trapped stale 7 2 1 1 1 (pos 0) 9 1 2,
)

-- The last two families, in which NULL is used by `last`.
abbrev use_of_null : Places → Insn → List Insn × Expectation
use_of_null x last = (
  insn acquire x.b 0 1
      ∷ insn acquire x.a 0 0
      ∷ insn copy x.c x.a 0
      ∷ insn spill x.slot x.c 0
      ∷ insn reload x.d x.slot 0
      ∷ last
      ∷ insn read x.b 0 0
      ∷ insn return 0 0 9
      ∷ [],
  expectation trapped null 5 1 0 0 1 (pos 0) 7 0 1,
)

-- The program and `*e`.
unfoldable pub build_case : Family → Places → List Insn × Expectation
build_case valid_ab x = (
  two_objects x (
      insn read x.c 0 0
      ∷ insn read x.b 0 0
      ∷ insn reload x.d x.slot 0
      ∷ insn release x.d 0 0
      ∷ insn release x.b 0 0
      ∷ insn return 0 0 7
      ∷ []),
  expectation Ir.Status.returned no_trap 9 2 2 2 0 (pos 7) 10 3 0,
)
build_case stale_copy x = after_release x (insn read x.c 0 0)
build_case stale_spill x = after_release x (insn read x.d 0 0)
build_case repeated_release x = after_release x (insn release x.d 0 0)
build_case null_branch x = (
  insn acquire x.a 0 0
      ∷ insn copy x.c x.a 0
      ∷ insn spill x.slot x.c 0
      ∷ insn reload x.d x.slot 0
      ∷ insn br_null x.d 0 7
      ∷ insn read x.d 0 0
      ∷ (record { op = return; dst = 0; src = 0; imm = negsuc 6 })
      ∷ insn acquire x.b 0 1
      ∷ insn read x.b 0 0
      ∷ insn release x.b 0 0
      ∷ insn return 0 0 7
      ∷ [],
  expectation Ir.Status.returned no_trap 10 1 1 1 0 (pos 7) 9 1 0,
)
build_case consumed_branch x = (
  insn acquire x.a 0 1
      ∷ insn acquire x.b 0 1
      ∷ insn copy x.c x.a 0
      ∷ insn spill x.slot x.c 0
      ∷ insn release x.a 0 0
      ∷ insn reload x.d x.slot 0
      ∷ insn br_null x.d 0 10
      ∷ insn read x.b 0 0
      ∷ insn read x.d 0 0
      ∷ insn release x.b 0 0
      ∷ insn return 0 0 7
      ∷ [],
  expectation trapped stale 8 2 1 1 1 (pos 0) 10 1 2,
)
build_case overwrite_alias x = (
  insn acquire x.a 0 1
      ∷ insn copy x.c x.a 0
      ∷ insn spill x.slot x.c 0
      ∷ insn acquire x.b 0 1
      ∷ insn acquire x.a 0 0
      ∷ insn copy x.c x.a 0
      ∷ insn spill x.slot x.a 0
      ∷ insn reload x.d x.slot 0
      ∷ insn read x.b 0 0
      ∷ insn return 0 0 9
      ∷ [],
  expectation Ir.Status.returned no_trap 9 2 1 0 2 (pos 9) 12 0 3,
)
build_case exhaustion x = (
  insn acquire x.a 0 1
      ∷ insn copy x.c x.a 0
      ∷ insn spill x.slot x.c 0
      ∷ insn release x.a 0 0
      ∷ insn acquire x.b 0 1
      ∷ insn reload x.d x.slot 0
      ∷ insn acquire x.d 0 1
      ∷ insn return 0 0 9
      ∷ [],
  expectation trapped exhausted 6 2 0 1 1 (pos 0) 8 1 2,
)
build_case null_read x = use_of_null x (insn read x.d 0 0)
build_case null_release x = use_of_null x (insn release x.d 0 0)
