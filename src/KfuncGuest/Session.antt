-- ===== src/KfuncGuest/Session.antt =====
-- linux/kfunc/guest.c: the guest's checks and `main` from the module's BTF on, over the system calls
-- of the kernel. `none` is a failure, which ends the session. What is printed is left out.
pub mod Accounting
use c_bpf.Base.{
  ℕ, zero, suc, ◌+◌, ◌*◌, ◌%◌, ◌^◌, Bool, true, false, not, ◌&&◌, ◌||◌, Option, none, some, List,
  [], ◌∷◌, ltb, ◌==◌, if◌then◌else◌, pos, negsuc, ℤ, flag,
}
use c_bpf.KfuncGuest.{Program, max_insns}
use c_bpf.KfuncGuest.Programs.{
  Ids, Rejection, stale_copy, stale_spill, double_release, no_null, leak, valid_ab, valid_null,
  rejected_program,
}

pub record Counters : Type 0 where
  pub acquisitions : ℕ
  pub releases : ℕ
  pub live : ℕ
  pub reads : ℕ
  pub object_refs : ℕ

pub record Totals : Type 0 where
  pub positive_cases : ℕ
  pub rejected_cases : ℕ
  pub repeated_runs : ℕ
  pub executions : ℕ
  pub acquisitions : ℕ
  pub reads : ℕ

-- The phrases that `attributable_rejection` looks for in the verifier's log, in the order of the
-- source: the five of `ownership`, the two spellings for LEAK, and the two for NO_NULL.
pub data Phrase : Type 0 where
  must_be_referenced not_read_ok invalid_stack_read scalar_expected must_point_to_scalar : Phrase
  unreleased_capital unreleased possibly_null ptr_or_null : Phrase

-- The kernel and the module: the five counter files, the three system calls, and the log that a load
-- leaves. A number stands for a file descriptor.
pub record Kernel : Type 1 where
  pub State : Type 0
  pub snapshot : State → Option Counters
  pub load : Program → State → Option ℕ × State
  pub log_empty : State → Bool
  pub mentions : State → Phrase → Bool
  pub jited_len : ℕ → State → Option ℕ
  pub test_run : ℕ → State → Option ℕ × State

unfoldable pub balanced : Counters → Bool
balanced s = s.live == 0 && s.object_refs == 1 && s.acquisitions == s.releases

unfoldable pub delta : Counters → Counters → ℕ → ℕ → Bool
unfolding balanced
delta before after acquisitions reads =
    balanced before
    && balanced after
    && after.acquisitions == (before.acquisitions + acquisitions) % 2 ^ 64
    && after.releases == (before.releases + acquisitions) % 2 ^ 64
    && after.reads == (before.reads + reads) % 2 ^ 64

-- What `run_valid` and `check_rejected` add to the totals where they pass.
unfoldable pub credit_valid : ℕ → ℕ → ℕ → Totals → Totals
credit_valid acquisitions reads repeats t = record t {
  executions = (t.executions + repeats) % 2 ^ 32;
  acquisitions = (t.acquisitions + acquisitions * repeats) % 2 ^ 64;
  reads = (t.reads + reads * repeats) % 2 ^ 64;
  positive_cases = (t.positive_cases + flag (repeats == 1)) % 2 ^ 32;
  repeated_runs = (if repeats == 1 then t.repeated_runs else (t.repeated_runs + repeats) % 2 ^ 32);
}

unfoldable pub credit_rejected : Totals → Totals
credit_rejected t = record t { rejected_cases = (t.rejected_cases + 1) % 2 ^ 32 }

-- `if (failed) goto out;` before the rest.
unfoldable pub and_then {ℓ κ} : {A : Type ℓ} {B : Type κ} → Option A → (A → Option B) → Option B
and_then none f = none
and_then (some x) f = f x

unfoldable pub require {ℓ} : {A : Type ℓ} → Bool → A → Option A
require true x = some x
require false x = none

-- A loop over an array whose body may fail.
unfoldable pub attempt {ℓ κ} :
    {A : Type ℓ} {S : Type κ} → List A → (A → S → Option S) → S → Option S
unfolding and_then
attempt [] body s = some s
attempt (x ∷ xs) body s = and_then (body x s) (λ s'. attempt xs body s')

module _ (k : Kernel) where
  unfoldable pub load_program : Program → k.State → Option ℕ × k.State
  load_program p s =
      if p.invalid || p.count == 0 || ltb max_insns p.count then (none, s) else k.load p s

  unfoldable pub jited_length : ℕ → k.State → Option ℕ
  unfolding and_then require
  jited_length fd s = and_then (k.jited_len fd s) (λ n. require (not (n == 0)) n)

  -- One execution, from the counters `before` it.
  unfoldable pub run_once : ℕ → ℕ → ℕ → ℕ → Counters × k.State → Option (Counters × k.State)
  unfolding and_then require delta
  run_once fd expected acquisitions reads (before, s) =
      let (retval, s) = k.test_run fd s in
      and_then retval (λ v. and_then (require (v == expected) v) (λ _.
        and_then (k.snapshot s)
          (λ after. require (delta before after acquisitions reads) (after, s))))

  unfoldable pub repeat_runs : ℕ → ℕ → ℕ → ℕ → ℕ → Counters × k.State → Option (Counters × k.State)
  unfolding and_then run_once
  repeat_runs zero fd expected acquisitions reads x = some x
  repeat_runs (suc n) fd expected acquisitions reads x =
      and_then (run_once fd expected acquisitions reads x)
        (λ y. repeat_runs n fd expected acquisitions reads y)

  unfoldable pub balanced_snapshot : k.State → Option Counters
  unfolding and_then require balanced
  balanced_snapshot s = and_then (k.snapshot s) (λ c. require (balanced c) c)

  unfoldable pub run_valid : Program → ℕ → ℕ → ℕ → ℕ → k.State × Totals → Option (k.State × Totals)
  unfolding and_then balanced_snapshot load_program jited_length repeat_runs credit_valid
  run_valid p expected acquisitions reads repeats (s, t) = and_then (balanced_snapshot s) (λ before.
      let loaded = load_program p s in
      and_then loaded.0 (λ fd. and_then (jited_length fd loaded.1) (λ _.
        and_then (repeat_runs repeats fd expected acquisitions reads (before, loaded.1))
          (λ ran. some (ran.1, credit_valid acquisitions reads repeats t)))))

  unfoldable pub attributable_rejection : Rejection → k.State → Bool
  attributable_rejection kind s = if k.log_empty s then false else attributed kind
    where
      owned : Bool
      owned =
          k.mentions s must_be_referenced
          || k.mentions s not_read_ok
          || k.mentions s invalid_stack_read
          || k.mentions s scalar_expected
          || k.mentions s must_point_to_scalar

      attributed : Rejection → Bool
      attributed leak = k.mentions s unreleased_capital || k.mentions s unreleased
      attributed no_null = k.mentions s possibly_null || k.mentions s ptr_or_null
      attributed stale_copy = owned
      attributed stale_spill = owned
      attributed double_release = owned

  abbrev pub refused : Option ℕ → Option Bool
  refused none = some true
  refused (some fd) = none

  unfoldable pub check_rejected : Ids → Rejection → k.State × Totals → Option (k.State × Totals)
  unfolding and_then require balanced_snapshot load_program attributable_rejection delta
      credit_rejected
  check_rejected ids kind (s, t) =
      let p = rejected_program ids kind in
      and_then (balanced_snapshot s) (λ before.
        let loaded = load_program p s in
        and_then (refused loaded.0) (λ _.
          and_then (require (not p.invalid && attributable_rejection kind loaded.1) true) (λ _.
            and_then (k.snapshot loaded.1)
              (λ after. require (delta before after 0 0) (loaded.1, credit_rejected t)))))

  abbrev pub spills : List ℤ
  spills = pos 0 ∷ negsuc 7 ∷ negsuc 15 ∷ []

  -- The three loops of the stage "valid_cases".
  unfoldable pub valid_cases : Ids → k.State × Totals → Option (k.State × Totals)
  unfolding attempt run_valid
  valid_cases ids x =
      attempt {A = ℕ} (6 ∷ 7 ∷ [])
        (λ a. attempt spills (λ spill. attempt (false ∷ true ∷ []) (λ null_b.
          run_valid (valid_ab ids a spill null_b) (if null_b then 7 else 42)
            (if null_b then 1 else 2) (if null_b then 0 else 1) 1)))
        x

  abbrev pub no_totals : Totals
  no_totals = record {
    positive_cases = 0;
    rejected_cases = 0;
    repeated_runs = 0;
    executions = 0;
    acquisitions = 0;
    reads = 0;
  }

  abbrev pub agrees : Counters → Totals → Bool
  agrees c t =
      c.acquisitions == t.acquisitions
      && c.reads == t.reads
      && t.positive_cases == 13
      && t.rejected_cases == 5
      && t.repeated_runs == 32
      && t.executions == 45

  -- The stages from "initial_accounting" to "final_accounting", with the final counters and totals.
  unfoldable pub main : Ids → k.State → Option (Counters × Totals)
  unfolding and_then require attempt balanced_snapshot run_valid check_rejected valid_cases
  main ids s = and_then (balanced_snapshot s) (λ first.
      and_then (require (first.acquisitions == 0 && first.reads == 0) true) (λ _.
        and_then (valid_cases ids (s, no_totals)) (λ x.
          and_then (run_valid (valid_null ids) 0 0 0 1 x) (λ x.
            and_then (run_valid (valid_ab ids 7 (negsuc 15) false) 42 2 1 32 x) (λ x.
              and_then
                (attempt (stale_copy ∷ stale_spill ∷ double_release ∷ no_null ∷ leak ∷ [])
                  (check_rejected ids) x)
                (λ x.
                  and_then (balanced_snapshot x.0)
                    (λ final. require (agrees final x.1) (final, x.1))))))))
