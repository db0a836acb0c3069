-- ===== src/Native/Calls.antt =====
-- A program that the admission pass accepts, on the gates of the runtime: its run is the run of the
-- calls that it makes, and it exits with a number or leaves at a gate's failure.
use c_bpf.Base.{
  ℕ, zero, suc, ◌-◌, ◌≤◌, ◌≡◌, refl, ap, ◌∙◌, true, false, none, some, List, [], ◌∷◌, arith, ◌==◌,
  length, get_elem?, get_elem?-lt, inl, inr, if_rule,
}
use c_bpf.Cheri.{IsCheri}
use c_bpf.Jit.{BpfInsn}
use c_bpf.Jit.Admit.{Linkage, Table, admit, admitted}
use c_bpf.Jit.Execution.{State, Outcome, next, exits, stuck, Answer, execute, Reaches, there}
use c_bpf.Jit.Soundness.{Proceeds, admit-Proceeds}
use c_bpf.Runtime.{Kernel, Cap, Machine, gate, u64_max, failure}
use c_bpf.Runtime.Invoke.{Call, run_calls}
use c_bpf.Native.{
  is_gate_call, call_of, answer_of, ended, aborted, broken, Run, proceed, through_gate, turn,
  native_run,
}
use c_bpf.Native.Flags.{Flagged, gate-Flagged}

module _ (k : Kernel) (laws : IsCheri k.cheri) where
  -- The run is that of its calls. Where it exits, no gate has failed.
  pub record Exits (m m' : Machine k) (cs : List (Call k)) : Type 0 where
    pub calls : run_calls k cs m ≡ (m', false)
    pub entered : m'.s.entered ≡ m.s.entered
    pub failed : m'.s.failed ≡ m.s.failed

  abbrev pub Follows : Machine k → Run k → Type 0
  Follows m (cs, ended n m') = Exits m m' cs
  Follows m (cs, aborted m') = run_calls k cs m ≡ (m', true)
  Follows m (cs, broken) = ⊥

  failure_address : k.address_get (failure k) ≡ u64_max
  failure_address = laws.integer_address u64_max (omega arith)

  -- A call that goes on.
  call-Follows :
      (c : Call k) (m : Machine k) (r : Run k)
      → let g = gate k c.argument c.operation c.pc m in
        (k.address_get g.1 == u64_max) ≡ false → Follows g.0 r → Follows m (c ∷ r.0, r.1)
  unfolding run_calls
  call-Follows c m (cs, ended n m') e h = record {
    calls = rw e h.calls;
    entered = h.entered ∙ flags.entered;
    failed = elim flags.failed [ inl q ↦ h.failed ∙ q | inr q ↦ absurd (undetected q e) ];
  }
    where
      flags : Flagged k m (gate k c.argument c.operation c.pc m)
      flags = gate-Flagged k c.argument c.operation c.pc m

      undetected : {a : Cap k} → a ≡ failure k → (k.address_get a == u64_max) ≡ false → ⊥
      undetected q e = ground (arith, ap k.address_get q ∙ failure_address)
  call-Follows c m (cs, aborted m') e h = rw e h
  call-Follows c m (cs, broken) e h = h

  module _ (l : Linkage) (p : List BpfInsn) (T : Table) (e : admit l p ≡ admitted T) where
    -- The run behind an instruction that goes on, or exits.
    proceed-Follows :
        (f pc : ℕ) (s : State) (i : BpfInsn) (a : Answer)
        → length p - pc ≤ suc f
        → Reaches l p pc s
        → get_elem? p pc ≡ some i
        → ((n : ℕ) (s' : State) (m : Machine k)
            → length p - n ≤ f
            → Reaches l p n s'
            → Follows m (native_run k f l p n s' m))
        → (m : Machine k) (o : Outcome) → execute l a i.code i pc s ≡ o
        → Proceeds p pc o
        → Follows m (proceed k (native_run k f l p) o m)
    proceed-Follows f pc s i a h r at_pc ih m (next n s') q g =
        ih n s' m (omega (arith, g.0, get_elem?-lt p pc at_pc)) (there i a r at_pc q)
    proceed-Follows f pc s i a h r at_pc ih m (exits v) q g = record {
      calls = unfold run_calls in refl;
      entered = refl;
      failed = refl;
    }
    proceed-Follows f pc s i a h r at_pc ih m stuck q g = g

    turn-Follows :
        (f pc : ℕ) (s : State) (i : BpfInsn) (m : Machine k)
        → length p - pc ≤ suc f
        → Reaches l p pc s
        → get_elem? p pc ≡ some i
        → ((a : Answer) → Proceeds p pc (execute l a i.code i pc s))
        → ((n : ℕ) (s' : State) (m : Machine k)
            → length p - n ≤ f
            → Reaches l p n s'
            → Follows m (native_run k f l p n s' m))
        → Follows m (turn k (native_run k f l p) l i pc s m)
    unfolding turn through_gate run_calls
    turn-Follows f pc s i m h r at_pc on ih =
        if_rule (Follows m) (is_gate_call i.code) _ _
          (λ _.
            if_rule (Follows m) (k.address_get g.1 == u64_max) (c ∷ [], aborted g.0)
              (c ∷ rest.0, rest.1) stopped
              (λ good. call-Follows c m rest good (behind (answer_of k g.1 m) g.0)))
          (λ _. behind (record { acquired = none; value = 0 }) m)
      where
        c : Call k
        c = call_of k l i pc s m

        g : Machine k × Cap k
        g = gate k c.argument c.operation c.pc m

        rest : Run k
        rest = proceed k (native_run k f l p) (execute l (answer_of k g.1 m) i.code i pc s) g.0

        stopped : (k.address_get g.1 == u64_max) ≡ true → run_calls k (c ∷ []) m ≡ (g.0, true)
        stopped bad = rw (run_calls, bad) refl

        behind :
            (a : Answer) (n : Machine k)
            → Follows n (proceed k (native_run k f l p) (execute l a i.code i pc s) n)
        behind a n = proceed-Follows f pc s i a h r at_pc ih n _ refl (on a)

    pub native_run-Follows :
        (f pc : ℕ) (s : State) (m : Machine k)
        → length p - pc ≤ f
        → Reaches l p pc s
        → Follows m (native_run k f l p pc s m)
    unfolding native_run
    native_run-Follows zero pc s m h r =
        let (i, at_pc, _) = admit-Proceeds l p T e r in
        absurd (omega (arith, get_elem?-lt p pc at_pc))
    native_run-Follows (suc f) pc s m h r =
        let (i, at_pc, on) = admit-Proceeds l p T e r in
        rw (at_pc, native_run) (turn-Follows f pc s i m h r at_pc on (native_run-Follows f))
