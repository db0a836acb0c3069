-- ===== src/Gate/Simulation/Errors.antt =====
-- src/gate.c: `representation_errors` counts the runs that end with `GATE_REPRESENTATION`.
use mathlib.Core.Path.{subst}
use mathlib.Core.Option.{some-injective, none-ne-some}
use c_bpf.Base.{
  ℕ, zero, suc, ◌+◌, ◌≡◌, refl, ◌∙◌, ◌⊎◌, inl, inr, Bool, Option, none, some, arith, ap, List,
  get_elem?,
}
use c_bpf.Ir.{
  Insn, Opcode, acquire, copy, spill, reload, read, release, br_null, return, other, Result, log,
  invalid,
}
use c_bpf.Gate.{
  Machine, Metrics, Outcome, ok, null_handle, stale_handle, exhausted_cells, representation, Reply,
  Effect, replies, done, Round, on, finish, acquire_gate, issue, identify, read_at, read_field,
  when_ok, release_at, release_gate, consume_at, identified, exec, settle_reply, settle, round,
  clean_cell, clean, loop, start, finish_run,
}
use c_bpf.Gate.Platform.{Build}

module _ (b : Build) where
  abbrev errors : Machine b → ℕ
  errors m = m.metrics.representation_errors

  abbrev AfterEffect : ℕ → Effect b → Type 0
  AfterEffect n (replies r next) = errors r.machine ≡ n
  AfterEffect n (done m) = errors m ≡ n

  abbrev AfterRound : ℕ → Round b → Type 0
  AfterRound n (on next m) = errors m ≡ n
  AfterRound n (finish m) = (errors m ≡ n) ⊎ ((m.result.status ≡ invalid) × (errors m ≡ n + 1))

  when_ok-errors :
      (n : ℕ) (o : Outcome × ℕ) (f : ℕ → Machine b → Reply b) (m : Machine b)
      → errors m ≡ n
      → ((t : ℕ) → errors (f t m).machine ≡ n)
      → errors (when_ok b o f m).machine ≡ n
  unfolding when_ok
  when_ok-errors n (ok, t) f m e h = h t
  when_ok-errors n (null_handle, t) f m e h = e
  when_ok-errors n (stale_handle, t) f m e h = e
  when_ok-errors n (exhausted_cells, t) f m e h = e
  when_ok-errors n (representation, t) f m e h = e

  acquire_gate-errors :
      (d : ℕ) (s : Bool) (m : Machine b) → errors (acquire_gate b d s m).machine ≡ errors m
  unfolding acquire_gate issue
  acquire_gate-errors d s m = ground arith

  read_at-errors : (t : ℕ) (m : Machine b) → errors (read_at b t m).machine ≡ errors m
  unfolding read_at
  read_at-errors t m = ground arith

  release_at-errors : (t : ℕ) (m : Machine b) → errors (release_at b t m).machine ≡ errors m
  unfolding release_at consume_at
  release_at-errors t m = ground arith

  exec-errors :
      (op : Opcode) (x : Insn) (pc : ℕ) (m : Machine b) → AfterEffect (errors m) (exec b op x pc m)
  unfolding exec identified read_field release_gate
  exec-errors acquire x pc m = acquire_gate-errors x.dst _ m
  exec-errors copy x pc m = refl
  exec-errors spill x pc m = refl
  exec-errors reload x pc m = refl
  exec-errors read x pc m =
      let m' : Machine b = record m {
        metrics = record (m.metrics) { reads = m.metrics.reads + 1 };
      } in
      when_ok-errors (errors m) (identify b m.state (m.regs x.dst) m.result.acquired) (read_at b) m'
        refl (λ t. read_at-errors t m')
  exec-errors release x pc m =
      let m' : Machine b = record m {
        metrics = record (m.metrics) { releases = m.metrics.releases + 1 };
      } in
      when_ok-errors (errors m) (identify b m.state (m.regs x.dst) m.result.acquired) (release_at b)
        m' refl (λ t. release_at-errors t m')
  exec-errors br_null x pc m = refl
  exec-errors return x pc m = refl
  exec-errors (other k) x pc m = refl

  settle_reply-errors :
      (n : ℕ) (op : Opcode) (pc next : ℕ) (o : Outcome) (t : ℕ) (m : Machine b)
      → errors m ≡ n
      → AfterRound n (settle_reply b op pc next o t m)
  unfolding settle_reply
  settle_reply-errors n op pc next ok t m e = e
  settle_reply-errors n op pc next null_handle t m e = inl e
  settle_reply-errors n op pc next stale_handle t m e = inl e
  settle_reply-errors n op pc next exhausted_cells t m e = inl e
  settle_reply-errors n op pc next representation t m e = inr (refl, ap (λ k. k + 1) e)

  round-errors : (x : Insn) (pc : ℕ) (m : Machine b) → AfterRound (errors m) (round b x pc m)
  unfolding round settle
  round-errors x pc m = settled (exec b x.op x pc _) (exec-errors x.op x pc _)
    where
      settled :
          (e : Effect b) → AfterEffect (errors m) e → AfterRound (errors m) (settle b x.op pc e)
      settled (replies r next) e = settle_reply-errors _ x.op pc next r.outcome r.token r.machine e
      settled (done g) e = inl e

  clean_cell-errors : (i : ℕ) (m : Machine b) → errors (clean_cell b i m) ≡ errors m
  unfolding clean_cell consume_at
  clean_cell-errors i m = ground arith

  clean-errors : (k i : ℕ) (m : Machine b) → errors (clean b k i m) ≡ errors m
  unfolding clean
  clean-errors zero i m = refl
  clean-errors (suc k) i m = clean-errors k (i + 1) (clean_cell b i m) ∙ clean_cell-errors i m

  clean_cell-status : (i : ℕ) (m : Machine b) → (clean_cell b i m).result.status ≡ m.result.status
  unfolding clean_cell consume_at log
  clean_cell-status i m = ground arith

  clean-status : (k i : ℕ) (m : Machine b) → (clean b k i m).result.status ≡ m.result.status
  unfolding clean
  clean-status zero i m = refl
  clean-status (suc k) i m = clean-status k (i + 1) (clean_cell b i m) ∙ clean_cell-status i m

  -- `representation_errors` is 1 only on a run that ends with `CBPF_INVALID`, else 0.
  abbrev pub IsCounted : Result → Metrics → Type 0
  IsCounted r m =
      (m.representation_errors ≡ 0) ⊎ ((r.status ≡ invalid) × (m.representation_errors ≡ 1))

  loop-IsCounted :
      (p : List Insn) (f pc : ℕ) (m : Machine b)
      → errors m ≡ 0
      → (g : Machine b) → loop b f p pc m ≡ some g
      → IsCounted g.result g.metrics
  unfolding loop
  loop-IsCounted p zero pc m e g h = absurd (none-ne-some _ h)
  loop-IsCounted p (suc f) pc m e g h = fetched (loop-IsCounted p f) (get_elem? p pc) h
    where
      after :
          ((n : ℕ) (m : Machine b)
            → errors m ≡ 0
            → (g : Machine b) → loop b f p n m ≡ some g
            → IsCounted g.result g.metrics)
          → (r : Round b) → AfterRound (errors m) r
          → (elim r [ on next m' ↦ loop b f p next m' | finish m' ↦ some m' ]) ≡ some g
          → IsCounted g.result g.metrics
      after ih (on next m') a h = ih next m' (a ∙ e) g h
      after ih (finish m') a h =
          subst (λ (k : Machine b). IsCounted k.result k.metrics) (some-injective _ _ h)
            (elim a [ inl q ↦ inl (q ∙ e) | inr (s, q) ↦ inr (s, omega (arith, q, e)) ])

      fetched :
          ((n : ℕ) (m : Machine b)
            → errors m ≡ 0
            → (g : Machine b) → loop b f p n m ≡ some g
            → IsCounted g.result g.metrics)
          → (o : Option Insn)
          → (elim o [
            | none ↦ some m
            | some x ↦ elim (round b x pc m) [
              | on next m' ↦ loop b f p next m'
              | finish m' ↦ some m'
            ]
          ])
            ≡ some g
          → IsCounted g.result g.metrics
      fetched ih none h =
          subst (λ (k : Machine b). IsCounted k.result k.metrics) (some-injective _ _ h) (inl e)
      fetched ih (some x) h = after ih (round b x pc m) (round-errors x pc m) h

  pub finish_run-IsCounted :
      (g : Machine b)
      → IsCounted g.result g.metrics
      → (r : Result) (m : Metrics) → finish_run b (some g) ≡ some (r, m)
      → IsCounted r m
  unfolding finish_run
  finish_run-IsCounted g c r m h =
      let k = g.result.acquired in
      let q = some-injective _ _ h in
      subst (λ (x : Result × Metrics). IsCounted x.0 x.1) q
        (elim c [
          | inl e ↦ inl (clean-errors k 0 g ∙ e)
          | inr (s, e) ↦ inr (clean-status k 0 g ∙ s, clean-errors k 0 g ∙ e)
        ])

  pub gate_loop-IsCounted :
      (p : List Insn) (f : ℕ) (g : Machine b)
      → loop b f p 0 (start b) ≡ some g
      → IsCounted g.result g.metrics
  unfolding start
  gate_loop-IsCounted p f g h = loop-IsCounted p f 0 (start b) refl g h
