-- ===== src/Gate/Metering/Rounds.antt =====
-- src/gate.c: the rounds of `cbpf_gate_run` and its cleanup keep the metrics right.
use c_bpf.Base.{
  ℕ, zero, suc, ◌+◌, ◌≡◌, refl, ◌∙◌, Bool, true, Option, none, some, List, [], ◌∷◌, ◌++◌, arith,
  if_rule, Option-cases, inl, inr, get_elem?,
}
use c_bpf.Ir
use c_bpf.Ir.{
  fresh, Insn, Opcode, acquire, copy, spill, reload, read, release, br_null, return, other, Result,
  log, Event, EventKind, step, trap_event, cleanup, Status, trapped, invalid, Trap, null, stale,
  exhausted, cbpf_cells,
}
use c_bpf.Gate.Platform.{Build}
use c_bpf.Gate.{
  Metrics, Outcome, ok, null_handle, stale_handle, exhausted_cells, representation, Machine, Effect,
  replies, done, Round, on, finish, int_nonzero, identify, read_at, read_field, release_at,
  release_gate, consume_at, identified, exec, settle_reply, settle, round, loop, clean_cell, clean,
}
use c_bpf.Gate.Metering.{
  tally, tally-append, is_acquire, is_read, is_release, owed, Metered, Owing, log-Metered, tallied,
  consume_at-Owes,
}
use c_bpf.Gate.Metering.Gates.{
  Ended, OwesAfter, attempted, acquire_gate-Owes, when_ok-Owes, read_at-Owes, release_at-Owes,
}

module _ (b : Build) where
  exec-Owes :
      (op : Opcode) (x : Insn) (pc : ℕ) (m : Machine b)
      → Metered b m.metrics m.result
      → OwesAfter b op (exec b op x pc m)
  unfolding exec read_field release_gate identified
  exec-Owes acquire x pc m h = acquire_gate-Owes b x.dst (int_nonzero b x.imm) m h
  exec-Owes copy x pc m h = h
  exec-Owes spill x pc m h = h
  exec-Owes reload x pc m h = h
  exec-Owes read x pc m h =
      let counted : Machine b = record m {
        metrics = record (m.metrics) { reads = m.metrics.reads + 1 };
      } in
      let more = (attempted b m.metrics m.result h).1 in
      when_ok-Owes b (identify b m.state (m.regs x.dst) m.result.acquired) (read_at b) counted 0 1 0
        more (λ t. read_at-Owes b t counted 0 1 0 more)
  exec-Owes release x pc m h =
      let counted : Machine b = record m {
        metrics = record (m.metrics) { releases = m.metrics.releases + 1 };
      } in
      let more = (attempted b m.metrics m.result h).2 in
      when_ok-Owes b (identify b m.state (m.regs x.dst) m.result.acquired) (release_at b) counted 0
        0 1 more (λ t. release_at-Owes b t counted 0 0 1 more)
  exec-Owes br_null x pc m h = h
  exec-Owes return x pc m h = inl (
      log-Metered b return step pc 0 m.metrics
        (record (m.result) { returned = x.imm; status = Ir.Status.returned }) refl h)
  exec-Owes (other k) x pc m h = inr refl

  -- Fields of the result that the metrics do not see.
  placed :
      (m : Metrics) (res : Result) (pc : ℕ) → Metered b m res → Metered b m (record res { pc = pc })
  placed m res pc h = h

  faulted :
      (op : Opcode) (pc t : ℕ) (m : Machine b) (trap : Trap)
      → Owing b op m
      → Metered b m.metrics
          (log (record (m.result) { status = trapped; trap = trap }) trap_event op pc t)
  faulted op pc t m trap h =
      log-Metered b op trap_event pc t m.metrics
        (record (m.result) { status = trapped; trap = trap }) refl h

  -- Cleanup writes events that the tallies pass over.
  cleaned :
      (pc t : ℕ) (m : Metrics) (res : Result)
      → Metered b m res
      → Metered b m (log res cleanup release pc t)
  unfolding log
  cleaned pc t m res h =
      h ∙ tallied b (owed b 0 0 0 res) (passed is_acquire) (passed is_read) (passed is_release)
    where
      e : Event
      e = record { kind = cleanup; op = release; pc = pc; token = t; object_refs = res.object_refs }

      passed :
          (test : Opcode → Bool) → tally test res.events + 0 ≡ tally test (res.events ++ e ∷ []) + 0
      passed test = omega (arith, tally-append test res.events e)

  abbrev pub EndMeters : Option (Machine b) → Type 0
  EndMeters none = Unit
  EndMeters (some m) = Ended b m

  clean_cell-Meters : (i : ℕ) (m : Machine b) → Ended b m → EndMeters (some (clean_cell b i m))
  unfolding clean_cell log consume_at
  clean_cell-Meters i m (inl h) =
      if_rule (Ended b) (b.object_is_live (m.state.cells i)) _ _
        (λ _.
          let m' = consume_at b i true m in
          inl (
            cleaned m'.result.pc (i + 1) m'.metrics m'.result (consume_at-Owes b i true m 0 0 0 h)))
        λ _. inl h
  clean_cell-Meters i m (inr h) =
      if_rule (Ended b) (b.object_is_live (m.state.cells i)) _ _ (λ _. inr h) λ _. inr h

  -- A round leaves the metrics right, unless the run is over and its status is INVALID.
  abbrev RoundMeters : Round b → Type 0
  RoundMeters (on next m) = Metered b m.metrics m.result
  RoundMeters (finish m) = Ended b m

  settle_reply-Meters :
      (op : Opcode) (pc next : ℕ) (o : Outcome) (t : ℕ) (m : Machine b)
      → Owing b op m
      → RoundMeters (settle_reply b op pc next o t m)
  unfolding settle_reply
  settle_reply-Meters op pc next ok t m h = log-Metered b op step pc t m.metrics m.result refl h
  settle_reply-Meters op pc next null_handle t m h = inl (faulted op pc t m null h)
  settle_reply-Meters op pc next stale_handle t m h = inl (faulted op pc t m stale h)
  settle_reply-Meters op pc next exhausted_cells t m h = inl (faulted op pc t m exhausted h)
  settle_reply-Meters op pc next representation t m h = inr refl

  settle-Meters :
      (op : Opcode) (pc : ℕ) (e : Effect b) → OwesAfter b op e → RoundMeters (settle b op pc e)
  unfolding settle
  settle-Meters op pc (replies y next) h =
      settle_reply-Meters op pc next y.outcome y.token y.machine h
  settle-Meters op pc (done m) h = h

  round-Meters :
      (x : Insn) (pc : ℕ) (m : Machine b)
      → Metered b m.metrics m.result
      → RoundMeters (round b x pc m)
  unfolding round
  round-Meters x pc m h =
      settle-Meters x.op pc _ (exec-Owes x.op x pc _ (placed m.metrics m.result pc h))

  pub loop-Meters :
      (f : ℕ) (p : List Insn) (pc : ℕ) (m : Machine b)
      → Metered b m.metrics m.result
      → EndMeters (loop b f p pc m)
  unfolding loop
  loop-Meters zero p pc m h = tt
  loop-Meters (suc f) p pc m h = elim (Option-cases (get_elem? p pc)) [
    | inl e ↦ rw (e, EndMeters, loop) (inl h)
    | inr (x, e) ↦
        rw (e, EndMeters, loop) (went (loop-Meters f p) (round b x pc m) (round-Meters x pc m h))
  ]
    where
      went :
          ((pc : ℕ) (m : Machine b) → Metered b m.metrics m.result → EndMeters (loop b f p pc m))
          → (r : Round b) → RoundMeters r
          → EndMeters (elim r [ on next m' ↦ loop b f p next m' | finish m' ↦ some m' ])
      went ih (on next m') k = ih next m' k
      went ih (finish m') k = k

  pub clean-Meters : (k i : ℕ) (m : Machine b) → Ended b m → EndMeters (some (clean b k i m))
  unfolding clean
  clean-Meters zero i m h = h
  clean-Meters (suc k) i m h = clean-Meters k (i + 1) (clean_cell b i m) (clean_cell-Meters i m h)
