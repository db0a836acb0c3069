-- ===== src/OwnershipGuest/Session/Pass.antt =====
-- linux/ownership/guest.c: what a session that passes has shown.
use c_bpf.Base.{
  ℕ, ◌%◌, ◌<◌, ◌≤◌, ◌≡◌, ◌⊎◌, refl, Bool, true, false, some, List, [], ◌∷◌, ◌++◌, arith, if_rule,
}
use mathlib.Core.Path.{subst}
use c_bpf.KfuncGuest.Programs.{Ids}
use c_bpf.OwnershipGuest.{selected}
use c_bpf.OwnershipGuest.Session.{
  Load, opened, refused, Event, refuses, opens, inspects, runs, closes, Answer, Kernel, tests,
  rejects, Ran, unfit_image, native_bytes, attributable, execute_stage, image_stage, after_load,
  run_case, Session, run_tests, main,
}
use c_bpf.OwnershipGuest.Session.Order.{main-run_tests}

module _ (ids : Ids) (k : Kernel) where
  -- An image of whole words that is not empty and fits the buffer.
  pub record IsImage (a : Answer) : Type 0 where
    pub answered : a.failed ≡ false
    pub some_word : 0 < a.number
    pub fits : a.number ≤ native_bytes
    pub words : a.number % 4 ≡ 0

  -- What a passing case has asked: a program to execute has run once, with the value that it is to
  -- return, and one to reject has been refused.
  pub data Shown : ℕ → List Event → Type 0 where
    executed :
        (t fd : ℕ) (i r : Answer)
        → rejects t ≡ false
        → IsImage i
        → r.failed ≡ false
        → r.number ≡ (selected ids t).1
        → Shown t (opens fd (selected ids t).0 ∷ inspects fd i ∷ runs fd r ∷ closes fd ∷ [])
    rejected :
        (t e : ℕ)
        → rejects t ≡ true
        → (e ≡ k.eacces) ⊎ (e ≡ k.einval)
        → Shown t (refuses (selected ids t).0 e ∷ [])

  pub data AllShown : List ℕ → List Event → Type 0 where
    none_left : AllShown [] []
    one_more :
        {t : ℕ} {ts : List ℕ} {es fs : List Event}
        → Shown t es
        → AllShown ts fs
        → AllShown (t ∷ ts) (es ++ fs)

  image_stage-Shown :
      (t fd : ℕ) (s : k.State)
      → rejects t ≡ false
      → (image_stage k fd (selected ids t).1 s).report.pass ≡ true
      → Shown t (opens fd (selected ids t).0 ∷ (image_stage k fd (selected ids t).1 s).events)
  unfolding image_stage execute_stage
  image_stage-Shown t fd s h =
      let i = k.info fd s in
      let r = k.test_run fd i.1 in
      if_rule
        (λ (x : Ran k).
          x.report.pass ≡ true → Shown t (opens fd (selected ids t).0 ∷ inspects fd i.0 ∷ x.events))
        (unfit_image k i.0) _ _ (λ _ e. ground (arith, e))
        (λ q e.
          executed t fd i.0 r.0 h
            (record {
              answered = ground (arith, q);
              some_word = ground (arith, q);
              fits = ground (arith, q);
              words = ground (arith, q);
            })
            (ground (arith, e)) (ground (arith, e)))

  after_load-Shown :
      (t : ℕ) (b : Bool) (r : Load × k.State)
      → rejects t ≡ b
      → (after_load k (selected ids t).0 (selected ids t).1 b r).report.pass ≡ true
      → Shown t (after_load k (selected ids t).0 (selected ids t).1 b r).events
  unfolding after_load attributable
  after_load-Shown t true (refused e, s) q h = rejected t e q (ground (arith, h))
  after_load-Shown t false (refused e, s) q h = ground (arith, h)
  after_load-Shown t true (opened fd, s) q h = ground (arith, h)
  after_load-Shown t false (opened fd, s) q h = image_stage-Shown t fd s q h

  run_tests-AllShown :
      (ts : List ℕ) (s : k.State)
      → (run_tests k ids ts s).pass ≡ true
      → AllShown ts (run_tests k ids ts s).events
  unfolding run_tests run_case
  run_tests-AllShown [] s = λ e. none_left
  run_tests-AllShown (t ∷ ts) s =
      let r = run_case k (selected ids t).0 (selected ids t).1 (rejects t) s in
      if_rule (λ (x : Session k). x.pass ≡ true → AllShown (t ∷ ts) x.events) r.report.pass _ _
        (λ q e.
          one_more (after_load-Shown t (rejects t) (k.load (selected ids t).0 s) refl q)
            (run_tests-AllShown ts r.state e))
        (λ q e. ground (arith, e))

  -- Whatever the kernel does, a session that passes has asked, in this order, for the tests 0 to 6 and
  -- nothing else. Each of the first four was loaded, its image had whole words that are not none and fit
  -- the buffer, it was run once without an error and returned the value that is expected of it, and
  -- its descriptor was closed. Each of the last three was refused, with EACCES or EINVAL.
  pub main-AllShown :
      (s : k.State) (r : Session k)
      → main k ids s ≡ some r
      → r.pass ≡ true
      → AllShown tests r.events
  main-AllShown s r e =
      subst (λ (x : Session k). x.pass ≡ true → AllShown tests x.events)
        (main-run_tests ids k s r e) (run_tests-AllShown tests s)
