-- ===== src/Gate/Simulation/Unprepared.antt =====
-- src/gate.c against src/cbpf.c, where a view may fail to be prepared: `GATE_REPRESENTATION` ends
-- the run, and the cleanup still releases what is held.
use mathlib.Core.Path.{subst}
use c_bpf.Base.{
  ℕ, zero, suc, ◌-◌, ◌≤◌, ◌<◌, ◌≡◌, refl, ap, ◌∙◌, ◌⊎◌, inl, inr, Option, some, none, arith, List,
  length, get_elem?-lt, get_elem?_total,
}
use c_bpf.Ir.{Insn, Result, fresh, invalid, cbpf_max_insns}
use c_bpf.Ir.Validate.{Verdict, accepted, rejected, cbpf_validate}
use c_bpf.Ir.WellFormed.{IsProgram, validate_iff, validate_null}
use c_bpf.Reference
use c_bpf.Reference.{cbpf_run, run_list}
use c_bpf.Reference.Invariant.{Inv, start-Inv}
use c_bpf.Reference.Cleanup.{IsSettled, clean-IsSettled, IsSettled-mono}
use c_bpf.Reference.Loop.{Hands}
use c_bpf.Reference.Run.{Between, AtFinish, round-Hands, run_list-Returns, refused-IsSettled}
use c_bpf.Gate
use c_bpf.Gate.{
  Machine, Metrics, acquire_gate, int_nonzero, exec, settle, settle_reply, Round, round, gate_run,
  finish_run,
}
use c_bpf.Gate.Platform.{Build, IsFaithful}
use c_bpf.Gate.Simulation.{clean-Sim, start-Sim}
use c_bpf.Gate.Simulation.Errors.{IsCounted, gate_loop-IsCounted, finish_run-IsCounted}
use c_bpf.Gate.Simulation.Relation.{Sim}
use c_bpf.Gate.Simulation.Rounds.{SameRounds}
use c_bpf.Gate.Simulation.Breaks.{given_up, Unprepared, round_cases}

module _ (b : Build) (faithful : IsFaithful b) where
  -- Where the loop stops: with the reference, or given up in a state of the reference.
  abbrev Stops : List Insn → Option Reference.Machine → Machine b → Type 0
  Stops p o g =
      ((a : Reference.Machine) × (o ≡ some a) × Sim b faithful a g)
      ⊎ ((a : Reference.Machine) × Inv a
          × (a.result.event_count ≤ length p)
          × (a.result.status ≡ invalid)
          × Sim b faithful a g
          × Unprepared b faithful)

  given_up-Stops :
      (p : List Insn) (pc : ℕ) (a : Reference.Machine) (g : Machine b)
      (o : Option Reference.Machine)
      → Between p pc a
      → Sim b faithful (given_up b faithful pc a) g
      → Unprepared b faithful
      → Stops p o g
  given_up-Stops p pc a g o (lt, (v, w), _, c) s u = inr (
    given_up b faithful pc a,
    (
      record {
        room = v.room;
        refs = v.refs;
        cell = v.cell;
        explicit = v.explicit;
        cleaned = v.cleaned;
        logged = v.logged;
      },
      record { regs = w.regs; spills = w.spills },
    ),
    omega (arith, c, lt),
    refl,
    s,
    u,
  )

  loop-Stops :
      (p : List Insn)
      → IsProgram p
      → (f pc : ℕ) (a : Reference.Machine) (g : Machine b) → length p - pc < f
      → Between p pc a
      → Sim b faithful a g
      → (g' : Machine b) × (Gate.loop b f p pc g ≡ some g') × Stops p (Reference.loop f p pc a) g'
  unfolding Gate.loop Reference.loop
  loop-Stops p v zero pc a g h w s = absurd (omega arith)
  loop-Stops p v (suc f) pc a g h w s =
      let (x, e) = get_elem?_total p pc w.0 in
      elim (round_cases b faithful x pc (length p) a g (v.each pc x e) s) [
        | inr (g', q, s', u) ↦
            (g', rw (e, Gate.loop) (rw q refl), given_up-Stops p pc a g' _ w s' u)
        | inl m ↦
            rw (e, Reference.loop, Gate.loop)
              (after (loop-Stops p v f) (get_elem?-lt p pc e) (Reference.round x pc a)
                (round b x pc g) m (round-Hands p v x pc a e w))
      ]
    where
      after :
          ((n : ℕ) (a : Reference.Machine) (g : Machine b)
            → length p - n < f
            → Between p n a
            → Sim b faithful a g
            → (g' : Machine b) × (Gate.loop b f p n g ≡ some g')
              × Stops p (Reference.loop f p n a) g')
          → pc < length p
          → (r : Reference.Round) (r' : Round b) → SameRounds b faithful r r'
          → Hands (Between p) (AtFinish p) pc r
          → (g' : Machine b) × ((elim r' [
            | Gate.on next m ↦ Gate.loop b f p next m
            | Gate.finish m ↦ some m
          ])
              ≡ some g')
            × Stops p
                (elim r [
                  | Reference.on next m ↦ Reference.loop f p next m
                  | Reference.finish m ↦ some m
                ])
                g'
      after ih lt (Reference.on n a) (Gate.on n' g) (q, s) (later, w) =
          rw q (ih n a g (omega arith) w s)
      after ih lt (Reference.finish a) (Gate.finish g) s w = (g, refl, inl (a, refl, s))
      after ih lt (Reference.on n a) (Gate.finish g) m w = absurd m
      after ih lt (Reference.finish a) (Gate.on n g) m w = absurd m

  -- The result behind the cleanup.
  cleaned : Reference.Machine → Result
  cleaned a = (Reference.clean a.result.acquired 0 a).result

  finish_run-Sim :
      (a : Reference.Machine) (g : Machine b)
      → Sim b faithful a g
      → (m : Metrics) × (finish_run b (some g) ≡ some (cleaned a, m))
  unfolding finish_run cleaned
  finish_run-Sim a g s =
      let q : g.result.acquired ≡ a.result.acquired = ap (λ (r : Result). r.acquired) s.result in
      let m = (Gate.clean b g.result.acquired 0 g).metrics in
      (
        m,
        ap (λ (r : Result). some (r, m))
            (ap (λ k. (Gate.clean b k 0 g).result) q
              ∙ (clean-Sim b faithful a.result.acquired 0 a g s).result),
      )

  Stops-Settles :
      (p : List Insn) (v : IsProgram p) (g : Machine b)
      → IsCounted b g.result g.metrics
      → Stops p (Reference.loop (suc (length p)) p 0 Reference.start) g
      → (r : Result) × (m : Metrics) × (finish_run b (some g) ≡ some (r, m))
        × IsSettled cbpf_max_insns r
        × IsCounted b r m
        × ((run_list p ≡ some r) ⊎ ((r.status ≡ invalid) × Unprepared b faithful))
  unfolding run_list Reference.finish_run cleaned
  Stops-Settles p v g c (inl (a, e, s)) =
      let (m, q) = finish_run-Sim a g s in
      let (r, e', (settled, _)) = run_list-Returns p v in
      let h : run_list p ≡ some (cleaned a) = rw (e, Reference.finish_run) refl in
      (
        cleaned a,
        m,
        q,
        subst (IsSettled cbpf_max_insns) (cc (e', h)) (IsSettled-mono r v.bounded settled),
        finish_run-IsCounted b g c (cleaned a) m q,
        inl h,
      )
  Stops-Settles p v g c (inr (a, i, n, st, s, u)) =
      let (m, q) = finish_run-Sim a g s in
      let (settled, same) = clean-IsSettled (length p) a i n in
      (
        cleaned a,
        m,
        q,
        IsSettled-mono _ v.bounded settled,
        finish_run-IsCounted b g c (cleaned a) m q,
        inr (same.status ∙ st, u),
      )

  abbrev refusal : ℕ → Result
  refusal i = record fresh { status = invalid; pc = i }

  -- On any faithful build, also one that fails to prepare a view, and on any input, `cbpf_gate_run`
  -- returns a settled result: at most two cells acquired, the reference count at 1, each acquired cell
  -- consumed exactly once, no other consumed, and the events as they were counted and within their
  -- array. The metrics count no representation error, or one and
  -- the status is INVALID. It is the result of `cbpf_run`, or its status is INVALID and the view of one of
  -- the two cells cannot be prepared.
  pub gate_run-Settles :
      (p : Option (List Insn))
      → (r : Result) × (m : Metrics) × (gate_run b p ≡ some (r, m))
        × IsSettled cbpf_max_insns r
        × IsCounted b r m
        × ((cbpf_run p ≡ some r) ⊎ ((r.status ≡ invalid) × Unprepared b faithful))
  unfolding gate_run cbpf_run
  gate_run-Settles none = (
    refusal 0,
    Gate.fresh_metrics b,
    rw (validate_null, gate_run) refl,
    refused-IsSettled invalid 0,
    inl refl,
    inl (rw (validate_null, cbpf_run) refl),
  )
  gate_run-Settles (some p) = judged (cbpf_validate (some p)) refl
    where
      judged :
          (w : Verdict)
          → cbpf_validate (some p) ≡ w
          → (r : Result) × (m : Metrics) × (gate_run b (some p) ≡ some (r, m))
            × IsSettled cbpf_max_insns r
            × IsCounted b r m
            × ((cbpf_run (some p) ≡ some r) ⊎ ((r.status ≡ invalid) × Unprepared b faithful))
      judged (rejected i) e = (
        refusal i,
        Gate.fresh_metrics b,
        rw (e, gate_run) refl,
        refused-IsSettled invalid i,
        inl refl,
        inl (rw (e, cbpf_run) refl),
      )
      judged accepted e =
          let v = (validate_iff p).0 e in
          let (g, q, stops) =
            loop-Stops p v (suc (length p)) 0 Reference.start (Gate.start b) (omega arith)
              (
                v.nonempty,
                start-Inv,
                unfold Reference.start in refl,
                unfold Reference.start in omega arith,
              )
              (start-Sim b faithful) in
          let (r, m, q', settled, counted, either) =
            Stops-Settles p v g (gate_loop-IsCounted b p _ g q) stops in
          (r, m, rw (e, gate_run) (rw q q'), settled, counted, rw (e, cbpf_run) either)
