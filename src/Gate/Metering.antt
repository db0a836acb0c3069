-- ===== src/Gate/Metering.antt =====
-- src/gate.c: the metrics of `cbpf_gate_run` against the events of its result, which is what
-- `expected_metrics` of src/gate_demo.c compares.
mod Gates
mod Rounds
pub mod Report
use mathlib.Core.Option
use c_bpf.Base.{
  ◌≢◌, ℕ, zero, suc, ◌+◌, ◌-◌, ◌<◌, ◌≡◌, refl, sym, ap, ◌∙◌, Bool, true, false, not, ◌&&◌, Option,
  none, some, List, [], ◌∷◌, ◌++◌, arith, flag, ◌==◌, if◌then◌else◌, store, if_rule, Bool-cases,
  Option-cases, inl, inr, ◌⊎◌, get_elem?, length,
}
use c_bpf.Ir
use c_bpf.Ir.WellFormed.{IsProgram, validate_iff, validate_null}
use c_bpf.Ir.Validate.{Verdict, accepted, rejected, cbpf_validate}
use c_bpf.Reference.{cbpf_run, program}
use c_bpf.Reference.Run.{Verdicts, run-Verdicts}
use c_bpf.Gate.Platform.{IsFaithful}
use c_bpf.Gate.Simulation.{gate_run-eq-cbpf_run}
use c_bpf.Ir.{
  fresh, Insn, Opcode, acquire, copy, spill, reload, read, release, br_null, return, other, Result,
  log, Event, EventKind, step, trap_event, cleanup, Status, trapped, invalid, Trap, null, stale,
  exhausted, cbpf_cells,
}
use c_bpf.Gate.Platform.{Build}
use c_bpf.Gate.{
  Metrics, Outcome, ok, null_handle, stale_handle, exhausted_cells, representation, Machine, Reply,
  Effect, replies, done, Round, on, finish, acquire_gate, issue, int_nonzero, identify, read_at,
  read_field, when_ok, release_at, release_gate, consume_at, identified, branches, exec,
  settle_reply, settle, round, loop, clean_cell, clean, start, finish_run, gate_run, fresh_metrics,
}

abbrev pub is_acquire : Opcode → Bool
is_acquire acquire = true
is_acquire _ = false

abbrev pub is_read : Opcode → Bool
is_read read = true
is_read _ = false

abbrev pub is_release : Opcode → Bool
is_release release = true
is_release _ = false

abbrev pub is_cleanup : EventKind → Bool
is_cleanup cleanup = true
is_cleanup _ = false

-- The events of an operation, those of terminal cleanup apart.
unfoldable pub tally : (Opcode → Bool) → List Event → ℕ
tally test [] = 0
tally test (e ∷ es) = flag (not (is_cleanup e.kind) && test e.op) + tally test es

tally-append :
    (test : Opcode → Bool) (es : List Event) (e : Event)
    → tally test (es ++ e ∷ []) ≡ tally test es + flag (not (is_cleanup e.kind) && test e.op)
unfolding tally
tally-append test [] e = omega arith
tally-append test (d ∷ es) e = omega (arith, tally-append test es e)

module _ (b : Build) where
  -- The metrics that a result calls for when `a`, `r` and `l` events of the three gates are still to
  -- be written.
  abbrev pub owed : ℕ → ℕ → ℕ → Result → Metrics
  owed a r l res = record {
    acquisitions = tally is_acquire res.events + a;
    reads = tally is_read res.events + r;
    releases = tally is_release res.events + l;
    cleanups = res.cleanup_releases;
    restricted_handles = if b.purecap then res.acquired else 0;
    tag_clears = if b.purecap then res.explicit_releases + res.cleanup_releases else 0;
    cell_bytes = b.cell_bytes;
    handle_bytes = b.handle_bytes;
    purecap = b.purecap;
    representation_errors = 0;
  }

  -- `expected_metrics` of src/gate_demo.c.
  unfoldable pub expected_metrics : Result → Metrics
  expected_metrics res = record {
    acquisitions = tally is_acquire res.events;
    reads = tally is_read res.events;
    releases = tally is_release res.events;
    cleanups = res.cleanup_releases;
    restricted_handles = if b.purecap then res.acquired else 0;
    tag_clears = if b.purecap then res.explicit_releases + res.cleanup_releases else 0;
    cell_bytes = b.cell_bytes;
    handle_bytes = b.handle_bytes;
    purecap = b.purecap;
    representation_errors = 0;
  }

  abbrev pub Owes : ℕ → ℕ → ℕ → Metrics → Result → Type 0
  Owes a r l m res = m ≡ owed a r l res

  abbrev pub Metered : Metrics → Result → Type 0
  Metered m res = Owes 0 0 0 m res

  -- An operation's gate has run, and its event is still to be written.
  abbrev pub Owing : Opcode → Machine b → Type 0
  Owing op m =
      Owes (flag (is_acquire op)) (flag (is_read op)) (flag (is_release op)) m.metrics m.result

  -- Metrics of one result agree where the three tallies do.
  pub tallied :
      (m : Metrics) {a a' r r' l l' : ℕ}
      → a ≡ a'
      → r ≡ r'
      → l ≡ l'
      → ◌≡◌ {A = Metrics}
          (record m { acquisitions = a; reads = r; releases = l })
          (record m { acquisitions = a'; reads = r'; releases = l' })
  tallied m p q s = cc

  recounted :
      (m : Metrics) {k k' c c' : ℕ}
      → k ≡ k'
      → c ≡ c'
      → ◌≡◌ {A = Metrics}
          (record m { tag_clears = k; cleanups = c })
          (record m { tag_clears = k'; cleanups = c' })
  recounted m p q = cc

  pub log-Metered :
      (op : Opcode) (kind : EventKind) (pc token : ℕ) (m : Metrics) (res : Result)
      → is_cleanup kind ≡ false
      → Owes (flag (is_acquire op)) (flag (is_read op)) (flag (is_release op)) m res
      → Metered m (log res kind op pc token)
  unfolding log
  log-Metered op kind pc token m res k h =
      h ∙ tallied (owed 0 0 0 res) (written is_acquire) (written is_read) (written is_release)
    where
      e : Event
      e = record { kind = kind; op = op; pc = pc; token = token; object_refs = res.object_refs }

      written :
          (test : Opcode → Bool)
          → tally test res.events + flag (test op) ≡ tally test (res.events ++ e ∷ []) + 0
      written test = omega (arith, tally-append test res.events e, kept)
        where
          kept : flag (not (is_cleanup kind) && test op) ≡ flag (test op)
          kept = rw k refl

  pub issue-Owes :
      (dst : ℕ) (view : b.Handle) (m : Machine b) (a r l : ℕ)
      → Owes a r l m.metrics m.result
      → Owes a r l (issue b dst view m).metrics (issue b dst view m).result
  unfolding issue
  issue-Owes dst view m a r l h =
      ap (λ (n : Metrics). record n { restricted_handles = n.restricted_handles + flag b.purecap })
        h
      ∙ ap (λ (k : ℕ). record (owed a r l m.result) { restricted_handles = k }) (ground arith)

  pub consume_at-Owes :
      (i : ℕ) (in_cleanup : Bool) (m : Machine b) (a r l : ℕ)
      → Owes a r l m.metrics m.result
      → Owes a r l (consume_at b i in_cleanup m).metrics (consume_at b i in_cleanup m).result
  unfolding consume_at
  consume_at-Owes i in_cleanup m a r l h =
      ap
        (λ (n : Metrics). record n {
          tag_clears = n.tag_clears + flag b.purecap;
          cleanups = n.cleanups + flag in_cleanup;
        })
        h
      ∙ counted in_cleanup
    where
      counted :
          (c : Bool)
          → ◌≡◌ {A = Metrics}
              (record (owed a r l m.result) {
                tag_clears = (owed a r l m.result).tag_clears + flag b.purecap;
                cleanups = m.result.cleanup_releases + flag c;
              })
              (owed a r l (consume_at b i c m).result)
      counted true = recounted (owed a r l m.result) (ground arith) refl
      counted false = recounted (owed a r l m.result) (ground arith) (omega arith)
