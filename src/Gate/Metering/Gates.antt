-- ===== src/Gate/Metering/Gates.antt =====
-- src/gate.c: what each gate owes to the metrics.
use c_bpf.Base.{
  ℕ, ◌+◌, ◌-◌, ◌≡◌, refl, ap, ◌∙◌, Bool, true, false, Option, none, some, arith, flag, ◌==◌,
  if_rule, ◌⊎◌,
}
use c_bpf.Ir.{Opcode, Result, invalid, cbpf_cells}
use c_bpf.Gate.Platform.{Build}
use c_bpf.Gate.{
  Metrics, Outcome, ok, null_handle, stale_handle, exhausted_cells, representation, Machine, Reply,
  Effect, replies, done, acquire_gate, issue, read_at, when_ok, release_at,
}
use c_bpf.Gate.Metering.{
  is_acquire, is_read, is_release, owed, Owes, Metered, tallied, issue-Owes, consume_at-Owes,
}

module _ (b : Build) where
  -- The operation's own counter has gone up.
  pub attempted :
      (m : Metrics) (res : Result)
      → Metered b m res
      → Owes b 1 0 0 (record m { acquisitions = m.acquisitions + 1 }) res
        × Owes b 0 1 0 (record m { reads = m.reads + 1 }) res
        × Owes b 0 0 1 (record m { releases = m.releases + 1 }) res
  attempted m res h = (
    ap (λ (n : Metrics). record n { acquisitions = n.acquisitions + 1 }) h
        ∙ tallied b (owed b 0 0 0 res) (omega arith) refl refl,
    ap (λ (n : Metrics). record n { reads = n.reads + 1 }) h
        ∙ tallied b (owed b 0 0 0 res) refl (omega arith) refl,
    ap (λ (n : Metrics). record n { releases = n.releases + 1 }) h
        ∙ tallied b (owed b 0 0 0 res) refl refl (omega arith),
  )

  pub acquire_gate-Owes :
      (dst : ℕ) (success : Bool) (m : Machine b)
      → Metered b m.metrics m.result
      → Owes b 1 0 0
          (acquire_gate b dst success m).machine.metrics
          (acquire_gate b dst success m).machine.result
  unfolding acquire_gate
  acquire_gate-Owes dst false m h = (attempted m.metrics m.result h).0
  acquire_gate-Owes dst true m h =
      if_rule (λ (y : Reply b). Owes b 1 0 0 y.machine.metrics y.machine.result)
        (m.result.acquired == cbpf_cells) _ _ (λ _. (attempted m.metrics m.result h).0)
        (λ _. issued (b.prepare_view m.result.acquired))
    where
      counted : Machine b
      counted = record m {
        metrics = record (m.metrics) { acquisitions = m.metrics.acquisitions + 1 };
      }

      issued :
          (o : Option b.Handle)
          → (let y : Reply b = elim o [
            | none ↦ record { outcome = representation; token = 0; machine = counted }
            | some view ↦ record {
              outcome = ok;
              token = m.result.acquired + 1;
              machine = issue b dst view counted;
            }
          ] in
              Owes b 1 0 0 y.machine.metrics y.machine.result)
      issued none = (attempted m.metrics m.result h).0
      issued (some view) = issue-Owes b dst view counted 1 0 0 (attempted m.metrics m.result h).0

  -- What a reply leaves owed b.
  abbrev pub Leaves : ℕ → ℕ → ℕ → Reply b → Type 0
  Leaves a r l y = Owes b a r l y.machine.metrics y.machine.result

  pub when_ok-Owes :
      (o : Outcome × ℕ) (rest : ℕ → Machine b → Reply b) (m : Machine b) (a r l : ℕ)
      → Owes b a r l m.metrics m.result
      → ((t : ℕ) → Leaves a r l (rest t m))
      → Leaves a r l (when_ok b o rest m)
  unfolding when_ok
  when_ok-Owes (ok, t) rest m a r l h k = k t
  when_ok-Owes (null_handle, t) rest m a r l h k = h
  when_ok-Owes (stale_handle, t) rest m a r l h k = h
  when_ok-Owes (exhausted_cells, t) rest m a r l h k = h
  when_ok-Owes (representation, t) rest m a r l h k = h

  pub read_at-Owes :
      (t : ℕ) (m : Machine b) (a r l : ℕ)
      → Owes b a r l m.metrics m.result
      → Leaves a r l (read_at b t m)
  unfolding read_at
  read_at-Owes t m a r l h =
      if_rule (Leaves a r l) (t == 0) _ _ (λ _. h)
        λ _. if_rule (Leaves a r l) (b.object_is_live (m.state.cells (t - 1))) _ _ (λ _. h) λ _. h

  pub release_at-Owes :
      (t : ℕ) (m : Machine b) (a r l : ℕ)
      → Owes b a r l m.metrics m.result
      → Leaves a r l (release_at b t m)
  unfolding release_at
  release_at-Owes t m a r l h =
      if_rule (Leaves a r l) (t == 0) _ _ (λ _. h)
        λ _.
          if_rule (Leaves a r l) (b.object_is_live (m.state.cells (t - 1))) _ _
            (λ _. consume_at-Owes b (t - 1) false m a r l h) λ _. h

  -- At the end of a run the metrics are right, or its status is INVALID.
  abbrev pub Ended : Machine b → Type 0
  Ended m = Metered b m.metrics m.result ⊎ (m.result.status ≡ invalid)

  -- What an effect leaves owed b.
  abbrev pub OwesAfter : Opcode → Effect b → Type 0
  OwesAfter op (replies y next) =
      Leaves (flag (is_acquire op)) (flag (is_read op)) (flag (is_release op)) y
  OwesAfter op (done m) = Ended m
