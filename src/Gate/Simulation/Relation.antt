-- ===== src/Gate/Simulation/Relation.antt =====
-- src/gate.c against src/cbpf.c: the relation of the two machines.
use mathlib.Core.Path.{subst}
use c_bpf.Base.{
  ℕ, ◌-◌, ◌≤◌, ◌≡◌, ◌≢◌, refl, sym, ap, ◌∙◌, inl, inr, true, arith, Bool-cases, store, ◌==◌,
  if◌then◌else◌,
}
use c_bpf.Ir.{Opcode, Result, log, Trap, no_trap, null, stale, exhausted, trap_event, trapped}
use c_bpf.Reference
use c_bpf.Reference.{go, fault, with_live}
use c_bpf.Gate.{
  State, Machine, Outcome, ok, null_handle, stale_handle, exhausted_cells, representation, identify,
  Reply, Effect, replies, issue, acquire_gate, int_nonzero, read_at, read_field, when_ok,
  consume_at, release_at, release_gate, identified, branches, exec, settle, settle_reply, Round,
  round,
}
use c_bpf.Gate
use c_bpf.Gate.Platform.{Build, IsFaithful}
use c_bpf.Gate.Identify.{IsTable, Denotes}

module _ (b : Build) (faithful : IsFaithful b) where
  -- The two machines show the same result, and each handle denotes the token in its place.
  pub record Sim (a : Reference.Machine) (g : Machine b) : Type 0 where
    pub room : a.result.acquired ≤ 2
    pub table : IsTable b faithful g.state.views a.result.acquired
    pub regs : (j : ℕ) → Denotes b faithful g.state.views a.result.acquired (a.regs j) (g.regs j)
    pub spills :
        (j : ℕ) → Denotes b faithful g.state.views a.result.acquired (a.spills j) (g.spills j)
    pub live : (i : ℕ) → b.object_is_live (g.state.cells i) ≡ a.live i
    pub value : g.state.value ≡ 42
    pub refs : g.state.references ≡ a.result.object_refs
    pub result : g.result ≡ a.result

  -- Equal changes of what `Sim` does not look into.
  pub relabel :
      (a : Reference.Machine) (g : Machine b) (f : Result → Result)
      → ((r : Result) → (f r).acquired ≡ r.acquired)
      → ((r : Result) → (f r).object_refs ≡ r.object_refs)
      → Sim a g
      → Sim (record a { result = f a.result }) (record g { result = f g.result })
  relabel a g f same_acquired same_refs s =
      let e = sym (same_acquired a.result) in
      record {
        room = subst (λ n. n ≤ 2) e s.room;
        table = subst (IsTable b faithful g.state.views) e s.table;
        regs =
            λ j. subst (λ n. Denotes b faithful g.state.views n (a.regs j) (g.regs j)) e (s.regs j);
        spills = λ j.
            subst (λ n. Denotes b faithful g.state.views n (a.spills j) (g.spills j)) e
              (s.spills j);
        live = s.live;
        value = s.value;
        refs = s.refs ∙ sym (same_refs a.result);
        result = ap f s.result;
      }

  pub faulted :
      (op : Opcode) (pc t : ℕ) (f : Trap) (a : Reference.Machine) (g : Machine b)
      → Sim a g
      → Sim
          (record a {
            result = log (record (a.result) { trap = f; status = trapped }) trap_event op pc t;
          })
          (record g {
            result = log (record (g.result) { trap = f; status = trapped }) trap_event op pc t;
          })
  faulted op pc t f a g s =
      relabel a g (λ r. log (record r { trap = f; status = trapped }) trap_event op pc t)
        (λ r. unfold log in refl) (λ r. unfold log in refl) s

  -- The gates' own counters take no part.
  pub recount :
      (a : Reference.Machine) (g : Machine b) (m : Gate.Metrics)
      → Sim a g
      → Sim a (record g { metrics = m })
  recount a g m s = record {
    room = s.room;
    table = s.table;
    regs = s.regs;
    spills = s.spills;
    live = s.live;
    value = s.value;
    refs = s.refs;
    result = s.result;
  }

  unfoldable pub outcome_of : Trap → Outcome
  outcome_of no_trap = ok
  outcome_of null = null_handle
  outcome_of stale = stale_handle
  outcome_of exhausted = exhausted_cells

  abbrev pub Replies : Reference.Effect → Reply b → Type 0
  Replies (go t n a) r = (r.outcome ≡ ok) × (r.token ≡ t) × Sim a r.machine
  Replies (fault f t a) r =
      (f ≢ no_trap) × (r.outcome ≡ outcome_of f) × (r.token ≡ t) × Sim a r.machine
  Replies (Reference.done a) r = ⊥

  -- A write of the same handle to the same place.
  pub store-Denotes :
      (views : ℕ → b.Handle) (n : ℕ) (rs : ℕ → ℕ) (gs : ℕ → b.Handle) (d t : ℕ) (h : b.Handle)
      → ((j : ℕ) → Denotes b faithful views n (rs j) (gs j))
      → Denotes b faithful views n t h
      → (j : ℕ) → Denotes b faithful views n (store rs d t j) (store gs d h j)
  store-Denotes views n rs gs d t h all new j = elim (Bool-cases (j == d)) [
    | inl e ↦ rw e new
    | inr e ↦ rw e (all j)
  ]

  -- READ and RELEASE on a token: the two tests, in the interpreter and in the gate.
  pub use_at-Replies :
      (a : Reference.Machine) (g : Machine b) (t : ℕ) (k : Reference.Effect) (r : Reply b)
      → Sim a g
      → (a.live (t - 1) ≡ true → Replies k r)
      → Replies (with_live a t k) (
          if t == 0
          then record { outcome = null_handle; token = 0; machine = g }
          else if b.object_is_live (g.state.cells (t - 1))
          then r
          else record { outcome = stale_handle; token = t; machine = g })
  unfolding with_live outcome_of
  use_at-Replies a g t k r s act = elim (Bool-cases (t == 0)) [
    | inl e ↦ rw e ((λ q. cc), refl, ground arith, s)
    | inr e ↦ rw e (
        rw (s.live (t - 1)) (elim (Bool-cases (a.live (t - 1))) [
          | inl l ↦ rw l (act l)
          | inr l ↦ rw l ((λ q. cc), refl, refl, s)
        ]))
  ]
