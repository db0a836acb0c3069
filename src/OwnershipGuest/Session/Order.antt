-- ===== src/OwnershipGuest/Session/Order.antt =====
-- linux/ownership/guest.c: the order in which the guest loads, inspects, runs and closes.
use c_bpf.Base.{
  ℕ, ◌<◌, ◌≡◌, not, ◌||◌, some, List, [], ◌∷◌, ◌++◌, ◌==◌, arith, if_rule, unguarded, Bool-cases,
  inl, inr,
}
use mathlib.Core.Path.{subst}
use c_bpf.KfuncGuest.Programs.{Ids}
use c_bpf.OwnershipGuest.{selected}
use c_bpf.OwnershipGuest.Session.{
  Load, opened, refused, Event, refuses, opens, inspects, runs, closes, Answer, Kernel, tests,
  rejects, Ran, unfit_image, execute_stage, image_stage, after_load, run_case, Session, run_tests,
  main,
}

-- Where the guest stands between two requests: with no descriptor, or with the descriptor of a test's
-- program that is loaded, inspected or run.
pub data Phase : Type 0 where
  idle : Phase
  holds inspected ran : ℕ → ℕ → Phase

module _ (ids : Ids) where
  -- What it may ask for next. Only the first four programs are run, each after its inspection.
  pub data Step : Phase → Event → Phase → Type 0 where
    refusing : (t e : ℕ) → t < 7 → Step idle (refuses (selected ids t).0 e) idle
    opening : (t fd : ℕ) → t < 7 → Step idle (opens fd (selected ids t).0) (holds t fd)
    inspecting : (t fd : ℕ) (a : Answer) → Step (holds t fd) (inspects fd a) (inspected t fd)
    running : (t fd : ℕ) (a : Answer) → t < 4 → Step (inspected t fd) (runs fd a) (ran t fd)
    closing : (t fd : ℕ) → Step (holds t fd) (closes fd) idle
    closing_inspected : (t fd : ℕ) → Step (inspected t fd) (closes fd) idle
    closing_ran : (t fd : ℕ) → Step (ran t fd) (closes fd) idle

  pub data Walk : Phase → List Event → Phase → Type 0 where
    stop : {p : Phase} → Walk p [] p
    go :
        {p q r : Phase} {e : Event} {es : List Event} → Step p e q → Walk q es r → Walk p (e ∷ es) r

  append-Walk :
      {p q r : Phase} {es fs : List Event} → Walk p es q → Walk q fs r → Walk p (es ++ fs) r
  append-Walk stop w = w
  append-Walk (go e v) w = go e (append-Walk v w)

  module _ (k : Kernel) where
    image_stage-Walk :
        (t fd expected : ℕ) (s : k.State)
        → t < 4
        → Walk (holds t fd) (image_stage k fd expected s).events idle
    unfolding image_stage execute_stage
    image_stage-Walk t fd expected s h = go (inspecting t fd _) (
        if_rule (λ (r : Ran k). Walk (inspected t fd) r.events idle) (unfit_image k (k.info fd s).0)
          _ _ (λ _. go (closing_inspected t fd) stop)
          (λ _. go (running t fd _ h) (go (closing_ran t fd) stop)))

    after_load-Walk :
        (t : ℕ) (r : Load × k.State)
        → t < 7
        → Walk idle (after_load k (selected ids t).0 (selected ids t).1 (rejects t) r).events idle
    unfolding after_load
    after_load-Walk t (refused e, s) h = go (refusing t e h) stop
    after_load-Walk t (opened fd, s) h = elim (Bool-cases (rejects t)) [
      | inl q ↦ rw q (go (opening t fd h) (go (closing t fd) stop))
      | inr q ↦ rw q (go (opening t fd h) (image_stage-Walk t fd _ s (ground arith)))
    ]

    abbrev Known : List ℕ → Type 0
    Known [] = ◌≡◌ {A = ℕ} 0 0
    Known (t ∷ ts) = (t < 7) × Known ts

    run_tests-Walk :
        (ts : List ℕ) (s : k.State) → Known ts → Walk idle (run_tests k ids ts s).events idle
    unfolding run_tests run_case
    run_tests-Walk [] s h = stop
    run_tests-Walk (t ∷ ts) s (h, hs) =
        let r = run_case k (selected ids t).0 (selected ids t).1 (rejects t) s in
        let w = after_load-Walk t (k.load (selected ids t).0 s) h in
        if_rule (λ (x : Session k). Walk idle x.events idle) r.report.pass _ _
          (λ _. append-Walk w (run_tests-Walk ts r.state hs)) (λ _. w)

    pub main-run_tests :
        (s : k.State) (r : Session k) → main k ids s ≡ some r → run_tests k ids tests s ≡ r
    unfolding main
    main-run_tests s r e = unguarded (not (k.pid == 1) || k.uname_fails || not k.release_matches) e

    -- Whatever the kernel does, a session asks for things in this order: a test's program is loaded,
    -- and where that gives a descriptor, it is inspected at most once, then run at most once, and
    -- closed before the next load. A program that is to be rejected is not run, and at the end no
    -- descriptor is open.
    pub main-Walk : (s : k.State) (r : Session k) → main k ids s ≡ some r → Walk idle r.events idle
    unfolding main
    main-Walk s r e =
        subst (λ (x : Session k). Walk idle x.events idle) (main-run_tests s r e)
          (run_tests-Walk tests s (ground arith))
