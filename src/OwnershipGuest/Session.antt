-- ===== src/OwnershipGuest/Session.antt =====
-- linux/ownership/guest.c, `run_case` and `main`, over the system calls of the kernel. What the guest
-- asks of the kernel is a list of events; what it prints and the power off are left out.
pub mod Order
pub mod Pass
use c_bpf.Base.{
  ℕ, zero, suc, ◌+◌, ◌*◌, ◌%◌, Bool, true, false, not, ◌&&◌, ◌||◌, Option, none, some, List, [],
  ◌∷◌, ◌++◌, ltb, ◌==◌, if◌then◌else◌,
}
use c_bpf.Jit.{BpfInsn}
use c_bpf.KfuncGuest.Programs.{Ids}
use c_bpf.OwnershipGuest.{selected}

-- What `strstr` looks for in the verifier's log.
pub data Phrase : Type 0 where
  r1_scalar r1_not_read_ok r1_must_be_referenced must_point_to_scalar : Phrase

-- The result of BPF_PROG_LOAD: a descriptor, or `errno`.
pub data Load : Type 0 where
  opened refused : ℕ → Load

-- An answer to BPF_OBJ_GET_INFO_BY_FD or BPF_PROG_TEST_RUN: whether the call failed, and the number
-- that it leaves in the structure.
pub record Answer : Type 0 where
  pub failed : Bool
  pub number : ℕ

-- What the guest asks of the kernel, with the answer.
pub data Event : Type 0 where
  refuses : List BpfInsn → ℕ → Event
  opens : ℕ → List BpfInsn → Event
  inspects runs : ℕ → Answer → Event
  closes : ℕ → Event

pub record Kernel : Type 1 where
  pub State : Type 0
  pub load : List BpfInsn → State → Load × State
  pub mentions : State → Phrase → Bool
  pub info : ℕ → State → Answer × State
  pub test_run : ℕ → State → Answer × State
  pub close : ℕ → State → State
  pub eacces : ℕ
  pub einval : ℕ
  -- `getpid`, whether `uname` fails, and whether the release is the expected one.
  pub pid : ℕ
  pub uname_fails : Bool
  pub release_matches : Bool

pub data Stage : Type 0 where
  load native_image execute : Stage

-- The last line of a case.
pub record Report : Type 0 where
  pub loaded : Bool
  pub executed : Bool
  pub retval : ℕ
  pub jited_len : ℕ
  pub load_errno : ℕ
  pub stage : Stage
  pub pass : Bool

-- `sizeof(native_words)`.
abbrev pub native_bytes : ℕ
native_bytes = 4 * 2048

-- The tests by name, and the verdict that each expects.
abbrev pub tests : List ℕ
tests = 0 ∷ 1 ∷ 2 ∷ 3 ∷ 4 ∷ 5 ∷ 6 ∷ []

abbrev pub rejects : ℕ → Bool
rejects test = not (ltb test 4)

module _ (k : Kernel) where
  -- The report, what was asked and the kernel afterwards.
  pub record Ran : Type 0 where
    pub report : Report
    pub events : List Event
    pub state : k.State

  unfoldable pub attributable : ℕ → k.State → Bool
  attributable e s =
      (e == k.eacces || e == k.einval)
      && (k.mentions s r1_scalar
          || k.mentions s r1_not_read_ok
          || k.mentions s r1_must_be_referenced
          || k.mentions s must_point_to_scalar)

  abbrev pub unfit_image : Answer → Bool
  unfit_image a = a.failed || a.number == 0 || ltb native_bytes a.number || not (a.number % 4 == 0)

  -- The stage "execute", and the end of the case.
  unfoldable pub execute_stage : ℕ → ℕ → Answer → k.State → Ran
  execute_stage fd expected image s =
      let r = k.test_run fd s in
      record {
        report = record {
          loaded = true;
          executed = true;
          retval = r.0.number;
          jited_len = image.number;
          load_errno = 0;
          stage = execute;
          pass = not r.0.failed && r.0.number == expected;
        };
        events = runs fd r.0 ∷ closes fd ∷ [];
        state = k.close fd r.1;
      }

  -- The stage "native_image".
  unfoldable pub image_stage : ℕ → ℕ → k.State → Ran
  unfolding execute_stage
  image_stage fd expected s =
      let r = k.info fd s in
      let rest = execute_stage fd expected r.0 r.1 in
      let failed : Ran = record {
        report = record {
          loaded = true;
          executed = false;
          retval = 0;
          jited_len = r.0.number;
          load_errno = 0;
          stage = native_image;
          pass = false;
        };
        events = closes fd ∷ [];
        state = k.close fd r.1;
      } in
      let end = if unfit_image r.0 then failed else rest in
      record end { events = inspects fd r.0 ∷ end.events }

  -- The end of a case at the stage "load".
  abbrev pub at_load : Bool → ℕ → Bool → Report
  at_load loaded errno pass = record {
    loaded = loaded;
    executed = false;
    retval = 0;
    jited_len = 0;
    load_errno = errno;
    stage = load;
    pass = pass;
  }

  -- An acceptance of what is to be rejected is terminal.
  unfoldable pub after_load : List BpfInsn → ℕ → Bool → Load × k.State → Ran
  unfolding attributable image_stage
  after_load insns expected reject (refused e, s) = record {
    report = at_load false e (reject && attributable e s);
    events = refuses insns e ∷ [];
    state = s;
  }
  after_load insns expected true (opened fd, s) = record {
    report = at_load true 0 false;
    events = opens fd insns ∷ closes fd ∷ [];
    state = k.close fd s;
  }
  after_load insns expected false (opened fd, s) =
      let rest = image_stage fd expected s in record rest { events = opens fd insns ∷ rest.events }

  unfoldable pub run_case : List BpfInsn → ℕ → Bool → k.State → Ran
  unfolding after_load
  run_case insns expected reject s = after_load insns expected reject (k.load insns s)

  -- A session: whether it passes, and what it asked.
  pub record Session : Type 0 where
    pub pass : Bool
    pub events : List Event

  -- The loop, which the first failing case ends.
  unfoldable pub run_tests : Ids → List ℕ → k.State → Session
  unfolding run_case selected
  run_tests ids [] s = record { pass = true; events = [] }
  run_tests ids (t ∷ ts) s =
      let c = selected ids t in
      let r = run_case c.0 c.1 (rejects t) s in
      let rest = run_tests ids ts r.state in
      if r.report.pass
      then record { pass = rest.pass; events = r.events ++ rest.events }
      else record { pass = false; events = r.events }

  -- `none` outside the dedicated guest.
  unfoldable pub main : Ids → k.State → Option Session
  unfolding run_tests
  main ids s =
      if not (k.pid == 1) || k.uname_fails || not k.release_matches
      then none
      else some (run_tests ids tests s)
