-- ===== src/Gate/Simulation.antt =====
-- src/gate.c against src/cbpf.c: where every view can be prepared, the trusted gates give the
-- result of the reference interpreter.
mod Relation
mod Effects
mod Acquire
mod Rounds
pub mod Breaks
pub mod Errors
pub mod Unprepared
use mathlib.Core.Path.{subst}
use c_bpf.Base.{
  ℕ, zero, suc, ◌+◌, ◌-◌, ◌≤◌, ◌<◌, ◌≡◌, ◌≢◌, refl, sym, ap, ◌∙◌, ◌⊎◌, inl, inr, Bool, true, false,
  some, none, arith, Bool-cases, eq_of_==, store, ◌==◌, is, ℤ, pos, to_word, if◌then◌else◌, not,
  ◌^◌, ◌%◌,
}
use c_bpf.Ir
use c_bpf.Ir.{
  Insn, Opcode, acquire, copy, spill, reload, read, release, br_null, return, other, Result, log,
  Trap, no_trap, null, stale, exhausted, EventKind, step, trap_event, trapped, Status,
}
use c_bpf.Ir.WellFormed.{IsInsn, Operands}
use c_bpf.Reference
use c_bpf.Reference.{go, fault, with_live}
use c_bpf.Gate.{
  State, Machine, Outcome, ok, null_handle, stale_handle, exhausted_cells, representation, identify,
  Reply, Effect, replies, issue, acquire_gate, int_nonzero, read_at, read_field, when_ok,
  consume_at, release_at, release_gate, identified, branches, exec, settle, settle_reply, Round,
  round,
}
use c_bpf.Gate
use c_bpf.Gate.Platform.{Build, IsFaithful}
use c_bpf.Gate.Identify.{IsTable, Denotes, identify-Denotes}
use mathlib.Core.Option
use c_bpf.Base.{List, Option, length, get_elem?, Option-cases}
use c_bpf.Ir.WellFormed.{IsProgram, validate_iff, validate_null}
use c_bpf.Ir.Validate.{Verdict, accepted, rejected, cbpf_validate}
use c_bpf.Reference.{cbpf_run, run_list}
use c_bpf.Gate.{gate_run}
use c_bpf.Gate.Simulation.Relation.{
  Sim, relabel, faulted, recount, outcome_of, Replies, store-Denotes, use_at-Replies,
}
use c_bpf.Gate.Simulation.Effects.{
  Denotes-new, Denotes-old, issue-Sim, consume_at-live, release_at-Sim, clean_at-Sim, identified_ok,
  read_field-Replies, release_gate-Replies,
}
use c_bpf.Gate.Simulation.Rounds.{SameRounds, round-Rounds}

module _ (b : Build) (faithful : IsFaithful b) where
  pub clean_cell-Sim :
      (i : ℕ) (a : Reference.Machine) (g : Machine b)
      → Sim b faithful a g
      → Sim b faithful (Reference.clean_cell i a) (Gate.clean_cell b i g)
  unfolding Reference.clean_cell Gate.clean_cell
  clean_cell-Sim i a g s = rw (s.live i) (elim (Bool-cases (a.live i)) [
    | inl l ↦ rw l (
        relabel b faithful _ _ (λ r. log r Ir.cleanup release r.pc (i + 1))
          (λ r. unfold log in refl) (λ r. unfold log in refl) (clean_at-Sim b faithful i a g s))
    | inr l ↦ rw l s
  ])

  pub clean-Sim :
      (k i : ℕ) (a : Reference.Machine) (g : Machine b)
      → Sim b faithful a g
      → Sim b faithful (Reference.clean k i a) (Gate.clean b k i g)
  unfolding Reference.clean Gate.clean
  clean-Sim zero i a g s = s
  clean-Sim (suc k) i a g s = clean-Sim k (i + 1) _ _ (clean_cell-Sim i a g s)

  pub start-Sim : Sim b faithful Reference.start (Gate.start b)
  unfolding Reference.start Gate.start
  start-Sim = record {
    room = omega arith;
    table = λ i h. absurd (omega arith);
    regs = λ j. refl;
    spills = λ j. refl;
    live = λ i. faithful.null_dead;
    value = refl;
    refs = refl;
    result = refl;
  }

module _ (b : Build) (faithful : IsFaithful b)
    (total : (i : ℕ) → i < 2 → (v : b.Handle) × (b.prepare_view i ≡ some v)) where
  abbrev Ends : Option Reference.Machine → Option (Machine b) → Type 0
  Ends none none = Unit
  Ends (some a) (some g) = Sim b faithful a g
  Ends _ _ = ⊥

  loop-Ends :
      (p : List Insn)
      → IsProgram p
      → (f pc : ℕ) (a : Reference.Machine) (g : Machine b) → Sim b faithful a g
      → Ends (Reference.loop f p pc a) (Gate.loop b f p pc g)
  unfolding Reference.loop Gate.loop
  loop-Ends p v zero pc a g s = tt
  loop-Ends p v (suc f) pc a g s = elim (Option-cases (get_elem? p pc)) [
    | inl e ↦ rw (e, Reference.loop, Gate.loop) s
    | inr (x, e) ↦
        rw (e, Reference.loop, Gate.loop)
          (after (loop-Ends p v f) (Reference.round x pc a) (round b x pc g) (
            round-Rounds b faithful x pc (length p) a g (v.each pc x e)
              (λ _ _ h. total a.result.acquired h) s))
  ]
    where
      after :
          ((n : ℕ) (a : Reference.Machine) (g : Machine b)
            → Sim b faithful a g
            → Ends (Reference.loop f p n a) (Gate.loop b f p n g))
          → (r : Reference.Round) (r' : Round b) → SameRounds b faithful r r'
          → Ends
              (elim r [
                | Reference.on next m ↦ Reference.loop f p next m
                | Reference.finish m ↦ some m
              ])
              (elim r' [ Gate.on next m ↦ Gate.loop b f p next m | Gate.finish m ↦ some m ])
      after ih (Reference.on n a) (Gate.on n' g) (q, s) = rw q (ih n a g s)
      after ih (Reference.finish a) (Gate.finish g) s = s
      after ih (Reference.on n a) (Gate.finish g) m = absurd m
      after ih (Reference.finish a) (Gate.on n g) m = absurd m

  finish_run-eq :
      (o : Option Reference.Machine) (o' : Option (Machine b))
      → Ends o o'
      → Option.map (λ r. r.0) (Gate.finish_run b o') ≡ Reference.finish_run o
  unfolding Reference.finish_run Gate.finish_run
  finish_run-eq none none e = refl
  finish_run-eq (some a) (some g) s =
      let q : g.result.acquired ≡ a.result.acquired = ap (λ (r : Result). r.acquired) s.result in
      ap some (
        ap (λ k. (Gate.clean b k 0 g).result) q
        ∙ (clean-Sim b faithful a.result.acquired 0 a g s).result)
  finish_run-eq none (some g) m = absurd m
  finish_run-eq (some a) none m = absurd m

  -- Where a build is faithful and prepares a view of both cells, `cbpf_gate_run` reports the very
  -- result of `cbpf_run` on any input, the NULL program included: status, trap, PC, scalar, counters
  -- and the whole sequence of events.
  pub gate_run-eq-cbpf_run :
      (p : Option (List Insn)) → Option.map (λ r. r.0) (gate_run b p) ≡ cbpf_run p
  unfolding gate_run cbpf_run run_list
  gate_run-eq-cbpf_run none = rw (validate_null, gate_run, cbpf_run)
  gate_run-eq-cbpf_run (some p) = judged (cbpf_validate (some p)) refl
    where
      judged :
          (w : Verdict)
          → cbpf_validate (some p) ≡ w
          → Option.map (λ r. r.0) (gate_run b (some p)) ≡ cbpf_run (some p)
      judged accepted e =
          rw (e, gate_run, cbpf_run)
            (finish_run-eq _ _
              (loop-Ends p ((validate_iff p).0 e) (suc (length p)) 0 _ _ (start-Sim b faithful)))
      judged (rejected i) e = rw (e, gate_run, cbpf_run)
