-- ===== src/Gate/Simulation/Rounds.antt =====
-- src/gate.c against src/cbpf.c: where every view can be prepared, the
-- rounds of the two loops do the same.
use c_bpf.Base.{ℕ, ◌+◌, ◌≡◌, ◌≢◌, refl, sym, arith, store, pos}
use c_bpf.Ir
use c_bpf.Ir.{
  Insn, Opcode, acquire, copy, spill, reload, read, release, br_null, return, other, Result, log,
  Trap, no_trap, null, stale, exhausted, EventKind, step, trap_event, trapped, Status,
}
use c_bpf.Ir.WellFormed.{IsInsn, Operands}
use c_bpf.Reference
use c_bpf.Reference.{go, fault, with_live}
use c_bpf.Gate.{
  State, Machine, Outcome, ok, null_handle, stale_handle, exhausted_cells, representation, identify,
  Reply, Effect, replies, issue, acquire_gate, int_nonzero, read_at, read_field, when_ok,
  consume_at, release_at, release_gate, identified, branches, exec, settle, settle_reply, Round,
  round,
}
use c_bpf.Gate
use c_bpf.Gate.Platform.{Build, IsFaithful}
use c_bpf.Gate.Identify.{Denotes}
use c_bpf.Gate.Simulation.Relation.{Sim, relabel, faulted, outcome_of, Replies, store-Denotes}
use c_bpf.Gate.Simulation.Effects.{identified_ok, read_field-Replies, release_gate-Replies}
use c_bpf.Gate.Simulation.Acquire.{Ready, acquire_gate-Replies}

module _ (b : Build) (faithful : IsFaithful b) where
  -- Where an ACQUIRE is to succeed, a view of the next cell can be prepared.
  abbrev pub Needs : Opcode → Insn → ℕ → Type 0
  Needs op x n = op ≡ acquire → x.imm ≡ pos 1 → Ready b faithful n

  -- The two effects are related: the same next PC, the same trap, the same end.
  abbrev pub Matches : Reference.Effect → Effect b → Type 0
  Matches (go t n a) (replies r n') = (n' ≡ n) × Replies b faithful (go t n a) r
  Matches (fault f t a) (replies r n') = Replies b faithful (fault f t a) r
  Matches (Reference.done a) (Gate.done g) = Sim b faithful a g
  Matches _ _ = ⊥

  -- A copy between registers and spill slots.
  pub copied :
      (a : Reference.Machine) (g : Machine b) (d t : ℕ) (h : b.Handle)
      → Sim b faithful a g
      → Denotes b faithful g.state.views a.result.acquired t h
      → Sim b faithful (record a { regs = store a.regs d t }) (record g { regs = store g.regs d h })
  copied a g d t h s new = record {
    room = s.room;
    table = s.table;
    regs = store-Denotes b faithful _ _ a.regs g.regs d t h s.regs new;
    spills = s.spills;
    live = s.live;
    value = s.value;
    refs = s.refs;
    result = s.result;
  }

  pub spilled :
      (a : Reference.Machine) (g : Machine b) (d t : ℕ) (h : b.Handle)
      → Sim b faithful a g
      → Denotes b faithful g.state.views a.result.acquired t h
      → Sim b faithful
          (record a { spills = store a.spills d t })
          (record g { spills = store g.spills d h })
  spilled a g d t h s new = record {
    room = s.room;
    table = s.table;
    regs = s.regs;
    spills = store-Denotes b faithful _ _ a.spills g.spills d t h s.spills new;
    live = s.live;
    value = s.value;
    refs = s.refs;
    result = s.result;
  }

  abbrev pub Steps : ℕ → Reference.Effect → Type 0
  Steps pc (go t n a) = n ≡ pc + 1
  Steps pc _ = Unit

  pub gate_call :
      (e : Reference.Effect) (r : Reply b) (pc : ℕ)
      → Steps pc e
      → Replies b faithful e r
      → Matches e (replies r (pc + 1))
  gate_call (go t n a) r pc next m = (sym next, m)
  gate_call (fault f t a) r pc next m = m
  gate_call (Reference.done a) r pc next m = absurd m

  pub acquire_cell-Steps :
      (x : Insn) (pc : ℕ) (a : Reference.Machine) → Steps pc (Reference.acquire_cell x pc a)
  unfolding Reference.acquire_cell
  acquire_cell-Steps x pc a = ground arith

  pub read_cell-Steps : (t pc : ℕ) (a : Reference.Machine) → Steps pc (Reference.read_cell t pc a)
  unfolding Reference.read_cell with_live
  read_cell-Steps t pc a = ground arith

  pub release_cell-Steps :
      (t pc : ℕ) (a : Reference.Machine) → Steps pc (Reference.release_cell t pc a)
  unfolding Reference.release_cell with_live
  release_cell-Steps t pc a = ground arith

  pub exec-Matches :
      (op : Opcode) (x : Insn) (pc n : ℕ) (a : Reference.Machine) (g : Machine b)
      → Operands op x pc n
      → Needs op x a.result.acquired
      → Sim b faithful a g
      → Matches (Reference.exec op x pc a) (exec b op x pc g)
  unfolding Reference.exec exec identified branches
  exec-Matches acquire x pc n a g v r s =
      gate_call _ _ pc (acquire_cell-Steps x pc a)
        (acquire_gate-Replies b faithful x pc a g v.1 (r refl) s)
  exec-Matches copy x pc n a g v r s =
      rw (identified_ok b faithful a g _ _ s (s.regs x.src))
        (refl, (refl, refl, copied a g x.dst _ _ s (s.regs x.src)))
  exec-Matches spill x pc n a g v r s =
      rw (identified_ok b faithful a g _ _ s (s.regs x.src))
        (refl, (refl, refl, spilled a g x.dst _ _ s (s.regs x.src)))
  exec-Matches reload x pc n a g v r s =
      rw (identified_ok b faithful a g _ _ s (s.spills x.src))
        (refl, (refl, refl, copied a g x.dst _ _ s (s.spills x.src)))
  exec-Matches read x pc n a g v r s =
      gate_call _ _ pc (read_cell-Steps _ pc a)
        (read_field-Replies b faithful a g _ pc _ s (s.regs x.dst))
  exec-Matches release x pc n a g v r s =
      gate_call _ _ pc (release_cell-Steps _ pc a)
        (release_gate-Replies b faithful a g _ pc _ s (s.regs x.dst))
  exec-Matches br_null x pc n a g v r s =
      rw (identified_ok b faithful a g _ _ s (s.regs x.dst)) (refl, (refl, refl, s))
  exec-Matches return x pc n a g v r s =
      relabel b faithful a g
        (λ r. log (record r { returned = x.imm; status = Ir.Status.returned }) step return pc 0)
        (λ r. unfold log in refl) (λ r. unfold log in refl) s
  exec-Matches (other k) x pc n a g v r s = absurd v

  -- Two rounds: on to the same PC, or both to the label `finish`.
  abbrev pub SameRounds : Reference.Round → Round b → Type 0
  SameRounds (Reference.on n a) (Gate.on n' g) = (n' ≡ n) × Sim b faithful a g
  SameRounds (Reference.finish a) (Gate.finish g) = Sim b faithful a g
  SameRounds _ _ = ⊥

  pub settle_fault :
      (op : Opcode) (pc next t : ℕ) (f : Trap) (a : Reference.Machine) (g : Machine b)
      → f ≢ no_trap
      → Sim b faithful a g
      → SameRounds
          (Reference.settle op pc (fault f t a))
          (settle_reply b op pc next (outcome_of b faithful f) t g)
  unfolding Reference.settle settle_reply outcome_of
  settle_fault op pc next t no_trap a g ne s = absurd (ne refl)
  settle_fault op pc next t null a g ne s = faulted b faithful op pc t null a g s
  settle_fault op pc next t stale a g ne s = faulted b faithful op pc t stale a g s
  settle_fault op pc next t exhausted a g ne s = faulted b faithful op pc t exhausted a g s

  pub settle-Rounds :
      (op : Opcode) (pc : ℕ) (e : Reference.Effect) (e' : Effect b)
      → Matches e e'
      → SameRounds (Reference.settle op pc e) (settle b op pc e')
  unfolding Reference.settle settle settle_reply
  settle-Rounds op pc (go t n a) (replies r n') (q, (o, u, s)) = rw o (
      rw u (
        q,
        relabel b faithful a r.machine (λ r. log r step op pc t) (λ r. unfold log in refl)
            (λ r. unfold log in refl) s,
      ))
  settle-Rounds op pc (fault f t a) (replies r n') (ne, o, u, s) =
      rw o (rw u (settle_fault op pc n' t f a r.machine ne s))
  settle-Rounds op pc (Reference.done a) (Gate.done g) m = m
  settle-Rounds op pc (go t n a) (Gate.done g) m = absurd m
  settle-Rounds op pc (fault f t a) (Gate.done g) m = absurd m
  settle-Rounds op pc (Reference.done a) (replies r n') m = absurd m

  pub round-Rounds :
      (x : Insn) (pc n : ℕ) (a : Reference.Machine) (g : Machine b)
      → IsInsn pc n x
      → Needs x.op x a.result.acquired
      → Sim b faithful a g
      → SameRounds (Reference.round x pc a) (round b x pc g)
  unfolding Reference.round round
  round-Rounds x pc n a g v r s = settle-Rounds x.op pc _ _ (
      exec-Matches x.op x pc n _ _ v r
        (relabel b faithful a g (λ r. record r { pc = pc }) (λ r. refl) (λ r. refl) s))
