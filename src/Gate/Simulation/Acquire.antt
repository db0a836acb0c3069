-- ===== src/Gate/Simulation/Acquire.antt =====
-- src/gate.c against src/cbpf.c: the acquisition gate.
use c_bpf.Base.{
  ℕ, ◌<◌, ◌≡◌, refl, ap, ◌⊎◌, inl, inr, true, false, some, arith, Bool-cases, ◌==◌, pos,
}
use c_bpf.Ir.{Insn, Result}
use c_bpf.Reference
use c_bpf.Reference.{go, fault, with_live}
use c_bpf.Gate.{Machine, acquire_gate, int_nonzero}
use c_bpf.Gate.Platform.{Build, IsFaithful}
use c_bpf.Gate.Simulation.Relation.{Sim, recount, outcome_of, Replies, store-Denotes}
use c_bpf.Gate.Simulation.Effects.{issue-Sim}

module _ (b : Build) (faithful : IsFaithful b) where
  -- A view of the next cell can be prepared.
  abbrev pub Ready : ℕ → Type 0
  Ready n = n < 2 → (v : b.Handle) × (b.prepare_view n ≡ some v)

  pub acquire_some :
      (x : Insn) (pc : ℕ) (a : Reference.Machine) (g : Machine b)
      → x.imm ≡ pos 1
      → Ready a.result.acquired
      → Sim b faithful a g
      → Replies b faithful (Reference.acquire_cell x pc a) (acquire_gate b x.dst true g)
  unfolding Reference.acquire_cell acquire_gate outcome_of
  acquire_some x pc a g e ready s =
      let q : g.result.acquired ≡ a.result.acquired = ap (λ (r : Result). r.acquired) s.result in
      let same_test : (g.result.acquired == 2) ≡ (a.result.acquired == 2) = ap (λ n. n == 2) q in
      rw e (
        rw same_test (elim (Bool-cases (a.result.acquired == 2)) [
          | inl full ↦ rw full ((λ z. cc), refl, refl, recount b faithful a g _ s)
          | inr free ↦
              let room = s.room in
              let lt : a.result.acquired < 2 = ground arith in
              let (v, prepared) = ready lt in
              let prepared' : b.prepare_view g.result.acquired ≡ some v = rw q prepared in
              rw free (
                rw prepared' (
                  refl,
                  omega (arith, q),
                  issue-Sim b faithful x.dst v a _ lt prepared (recount b faithful a g _ s),
                ))
        ]))

  pub acquire_none :
      (x : Insn) (pc : ℕ) (a : Reference.Machine) (g : Machine b)
      → x.imm ≡ pos 0
      → Sim b faithful a g
      → Replies b faithful (Reference.acquire_cell x pc a) (acquire_gate b x.dst false g)
  unfolding Reference.acquire_cell acquire_gate
  acquire_none x pc a g e s = rw e (
    refl,
    refl,
    record {
      room = s.room;
      table = s.table;
      regs = store-Denotes b faithful _ _ a.regs g.regs x.dst 0 b.null_handle s.regs refl;
      spills = s.spills;
      live = s.live;
      value = s.value;
      refs = s.refs;
      result = s.result;
    },
  )

  pub acquire_gate-Replies :
      (x : Insn) (pc : ℕ) (a : Reference.Machine) (g : Machine b)
      → (x.imm ≡ pos 0) ⊎ (x.imm ≡ pos 1)
      → (x.imm ≡ pos 1 → Ready a.result.acquired)
      → Sim b faithful a g
      → Replies b faithful
          (Reference.acquire_cell x pc a)
          (acquire_gate b x.dst (int_nonzero b x.imm) g)
  unfolding int_nonzero
  acquire_gate-Replies x pc a g (inl e) ready s =
      let z : int_nonzero b x.imm ≡ false = rw e refl in rw z (acquire_none x pc a g e s)
  acquire_gate-Replies x pc a g (inr e) ready s =
      let z : int_nonzero b x.imm ≡ true = rw e refl in rw z (acquire_some x pc a g e (ready e) s)
