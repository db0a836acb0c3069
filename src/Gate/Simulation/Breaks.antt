-- ===== src/Gate/Simulation/Breaks.antt =====
-- src/gate.c against src/cbpf.c, where a view may fail to be prepared: one round.
use c_bpf.Base.{
  ℕ, ◌+◌, ◌<◌, ◌≡◌, refl, ap, ◌⊎◌, inl, inr, false, none, arith, Bool-cases, Option-cases, ◌==◌,
  pos,
}
use c_bpf.Ir.{
  Insn, Opcode, acquire, copy, spill, reload, read, release, br_null, return, other, Result,
  invalid,
}
use c_bpf.Ir.WellFormed.{IsInsn, Operands}
use c_bpf.Reference
use c_bpf.Reference.{cbpf_run, run_list}
use c_bpf.Gate
use c_bpf.Gate.{
  Machine, Metrics, acquire_gate, int_nonzero, exec, settle, settle_reply, Round, round, gate_run,
  finish_run,
}
use c_bpf.Gate.Platform.{Build, IsFaithful}
use c_bpf.Gate.Simulation.Relation.{Sim, recount, relabel}
use c_bpf.Gate.Simulation.Rounds.{SameRounds, Needs, round-Rounds}

module _ (b : Build) (faithful : IsFaithful b) where
  -- The reference machine at `pc`, given up as INVALID.
  abbrev pub given_up : ℕ → Reference.Machine → Reference.Machine
  given_up pc a = record a { result = record (a.result) { pc = pc; status = invalid } }

  -- One of the two cells has no view.
  abbrev pub Unprepared : Type 0
  Unprepared = (i : ℕ) × (i < 2) × (b.prepare_view i ≡ none)

  abbrev pub Breaks : Insn → ℕ → Reference.Machine → Machine b → Type 0
  Breaks x pc a g =
      (g' : Machine b) × (round b x pc g ≡ Gate.finish g')
      × Sim b faithful (given_up pc a) g'
      × Unprepared

  abbrev broken : ℕ → Machine b → Machine b
  broken pc g = record g {
    result = record (g.result) { pc = pc; status = invalid };
    metrics = record (g.metrics) {
      acquisitions = g.metrics.acquisitions + 1;
      representation_errors = g.metrics.representation_errors + 1;
    };
  }

  acquire-Breaks :
      (x : Insn) (pc : ℕ) (a : Reference.Machine) (g : Machine b)
      → x.op ≡ acquire
      → x.imm ≡ pos 1
      → a.result.acquired < 2
      → b.prepare_view a.result.acquired ≡ none
      → Sim b faithful a g
      → Breaks x pc a g
  unfolding round exec settle settle_reply acquire_gate int_nonzero
  acquire-Breaks x pc a g op imm lt fails s =
      let q : g.result.acquired ≡ a.result.acquired = ap (λ (r : Result). r.acquired) s.result in
      let free : (g.result.acquired == 2) ≡ false = ground arith in
      let fails' : b.prepare_view g.result.acquired ≡ none = rw q fails in
      (
        broken pc g,
        rw (op, imm, free, fails') refl,
        recount b faithful _ _ _ (
            relabel b faithful a g (λ r. record r { pc = pc; status = invalid }) (λ r. refl)
              (λ r. refl) s),
        (a.result.acquired, lt, fails),
      )

  -- A round does what the reference does, or breaks off.
  pub round_cases :
      (x : Insn) (pc n : ℕ) (a : Reference.Machine) (g : Machine b)
      → IsInsn pc n x
      → Sim b faithful a g
      → SameRounds b faithful (Reference.round x pc a) (round b x pc g) ⊎ Breaks x pc a g
  round_cases x pc n a g v s = elim (Option-cases (b.prepare_view a.result.acquired)) [
    | inr (h, e) ↦ same (λ _ _ l. (h, e))
    | inl e ↦ elim (Bool-cases (a.result.acquired == 2)) [
      | inl full ↦ same (λ _ _ l. absurd (ground arith))
      | inr free ↦ unready x.op refl (ground (arith, s.room)) e v
    ]
  ]
    where
      same :
          Needs b faithful x.op x a.result.acquired
          → SameRounds b faithful (Reference.round x pc a) (round b x pc g) ⊎ Breaks x pc a g
      same r = inl (round-Rounds b faithful x pc n a g v r s)

      unready :
          (op : Opcode)
          → x.op ≡ op
          → a.result.acquired < 2
          → b.prepare_view a.result.acquired ≡ none
          → Operands op x pc n
          → SameRounds b faithful (Reference.round x pc a) (round b x pc g) ⊎ Breaks x pc a g
      unready acquire q l e (_, inl zero_imm) = same (λ _ one. cc)
      unready acquire q l e (_, inr one) = inr (acquire-Breaks x pc a g q one l e s)
      unready copy q l e w = same (λ z. cc)
      unready spill q l e w = same (λ z. cc)
      unready reload q l e w = same (λ z. cc)
      unready read q l e w = same (λ z. cc)
      unready release q l e w = same (λ z. cc)
      unready br_null q l e w = same (λ z. cc)
      unready return q l e w = same (λ z. cc)
      unready (other k) q l e w = absurd w
