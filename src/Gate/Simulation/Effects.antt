-- ===== src/Gate/Simulation/Effects.antt =====
-- src/gate.c against src/cbpf.c: what the gates change keeps the relation.
use mathlib.Core.Path.{subst}
use c_bpf.Base.{
  ℕ, zero, suc, ◌+◌, ◌-◌, ◌<◌, ◌≡◌, refl, ap, inl, inr, Bool, true, false, some, arith, Bool-cases,
  eq_of_==, store, ◌==◌,
}
use c_bpf.Ir.{Result}
use c_bpf.Reference
use c_bpf.Reference.{go, fault, with_live}
use c_bpf.Gate.{
  Machine, ok, identify, issue, read_at, read_field, when_ok, consume_at, release_at, release_gate,
}
use c_bpf.Gate.Platform.{Build, IsFaithful}
use c_bpf.Gate.Identify.{Denotes, identify-Denotes}
use c_bpf.Gate.Simulation.Relation.{Sim, recount, Replies, store-Denotes, use_at-Replies}

module _ (b : Build) (faithful : IsFaithful b) where
  -- The view of a new acquisition, and what it leaves of the old ones.
  pub Denotes-new :
      (views : ℕ → b.Handle) (n : ℕ) (v : b.Handle)
      → Denotes b faithful (store views n v) (n + 1) (n + 1) v
  Denotes-new views n v =
      let e : suc n ≡ n + 1 = omega arith in
      subst (λ t. Denotes b faithful (store views n v) (n + 1) t v) e (omega arith, ground arith)

  pub Denotes-old :
      (views : ℕ → b.Handle) (n t : ℕ) (v h : b.Handle)
      → Denotes b faithful views n t h
      → Denotes b faithful (store views n v) (n + 1) t h
  Denotes-old views n zero v h d = d
  Denotes-old views n (suc i) v h (lt, e) = (omega arith, ground arith)

  pub issue-Sim :
      (d : ℕ) (v : b.Handle) (a : Reference.Machine) (g : Machine b)
      → a.result.acquired < 2
      → b.prepare_view a.result.acquired ≡ some v
      → Sim b faithful a g
      → Sim b faithful (Reference.issue d a) (issue b d v g)
  unfolding Reference.issue issue
  issue-Sim d v a g lt prepared s =
      let q : g.result.acquired ≡ a.result.acquired = ap (λ (r : Result). r.acquired) s.result in
      record {
        room = omega arith;
        table = λ i h. rw q (elim (Bool-cases (i == a.result.acquired)) [
          | inl e ↦ rw e (rw (eq_of_== _ _ e) prepared)
          | inr e ↦ rw e (s.table i (ground arith))
        ]);
        regs = rw q (
            store-Denotes b faithful _ _ a.regs g.regs d _ v
              (λ j. Denotes-old _ _ (a.regs j) v _ (s.regs j))
              (Denotes-new g.state.views a.result.acquired v));
        spills = rw q (λ j. Denotes-old _ _ (a.spills j) v _ (s.spills j));
        live = λ i. rw q (elim (Bool-cases (i == a.result.acquired)) [
          | inl e ↦ rw e faithful.ref_live
          | inr e ↦ rw e (s.live i)
        ]);
        value = s.value;
        refs = omega (arith, s.refs);
        result = ground (arith, s.result, s.refs);
      }

  -- Cell `i` loses its authority: the view stays, the object is dead.
  pub consume_at-live :
      (i : ℕ) (in_cleanup : Bool) (a : Reference.Machine) (g : Machine b)
      → Sim b faithful a g
      → (j : ℕ)
      → b.object_is_live ((consume_at b i in_cleanup g).state.cells j) ≡ store a.live i false j
  unfolding consume_at
  consume_at-live i in_cleanup a g s j = elim (Bool-cases (j == i)) [
    | inl e ↦ rw e (faithful.cleared_dead (g.state.cells i))
    | inr e ↦ rw e (s.live j)
  ]

  pub release_at-Sim :
      (i : ℕ) (a : Reference.Machine) (g : Machine b)
      → Sim b faithful a g
      → Sim b faithful (Reference.release_at i a) (consume_at b i false g)
  unfolding Reference.release_at consume_at
  release_at-Sim i a g s = record {
    room = s.room;
    table = s.table;
    regs = s.regs;
    spills = s.spills;
    live = consume_at-live i false a g s;
    value = s.value;
    refs = omega (arith, s.refs);
    result = ground (arith, s.result, s.refs);
  }

  pub clean_at-Sim :
      (i : ℕ) (a : Reference.Machine) (g : Machine b)
      → Sim b faithful a g
      → Sim b faithful (Reference.clean_at i a) (consume_at b i true g)
  unfolding Reference.clean_at consume_at
  clean_at-Sim i a g s = record {
    room = s.room;
    table = s.table;
    regs = s.regs;
    spills = s.spills;
    live = consume_at-live i true a g s;
    value = s.value;
    refs = omega (arith, s.refs);
    result = ground (arith, s.result, s.refs);
  }

  -- A handle that denotes a token is identified with it.
  pub identified_ok :
      (a : Reference.Machine) (g : Machine b) (t : ℕ) (h : b.Handle)
      → Sim b faithful a g
      → Denotes b faithful g.state.views a.result.acquired t h
      → identify b g.state h g.result.acquired ≡ (ok, t)
  identified_ok a g t h s d =
      rw (ap (λ (r : Result). r.acquired) s.result)
        (identify-Denotes b faithful g.state a.result.acquired t h s.table d s.room)

  pub read_field-Replies :
      (a : Reference.Machine) (g : Machine b) (t pc : ℕ) (h : b.Handle)
      → Sim b faithful a g
      → Denotes b faithful g.state.views a.result.acquired t h
      → Replies b faithful (Reference.read_cell t pc a) (read_field b h g)
  unfolding Reference.read_cell read_field when_ok read_at
  read_field-Replies a g t pc h s d = rw (identified_ok a g t h s d) (
      use_at-Replies b faithful a _ t _ _ (recount b faithful a g _ s) (λ l. (
        refl,
        refl,
        record {
          room = s.room;
          table = s.table;
          regs = s.regs;
          spills = s.spills;
          live = s.live;
          value = s.value;
          refs = s.refs;
          result = ground (arith, s.result, s.value);
        },
      )))

  pub release_gate-Replies :
      (a : Reference.Machine) (g : Machine b) (t pc : ℕ) (h : b.Handle)
      → Sim b faithful a g
      → Denotes b faithful g.state.views a.result.acquired t h
      → Replies b faithful (Reference.release_cell t pc a) (release_gate b h g)
  unfolding Reference.release_cell release_gate when_ok release_at
  release_gate-Replies a g t pc h s d = rw (identified_ok a g t h s d) (
      use_at-Replies b faithful a _ t _ _ (recount b faithful a g _ s)
        (λ l. (refl, refl, release_at-Sim (t - 1) a _ (recount b faithful a g _ s))))
