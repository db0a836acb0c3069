-- ===== src/Runtime/Steps.antt =====
-- linux/ownership/cbpf_runtime.c: the four ways in which a gate changes its invocation.
use c_bpf.Base.{
  ℕ, zero, suc, ◌+◌, ◌≤◌, ◌<◌, ◌≡◌, ◌≢◌, refl, ◌∙◌, inl, inr, true, not, ◌&&◌, ◌||◌, List, [], ◌∷◌,
  arith, Bool-cases, ◌==◌, if_rule, ltb, store,
}
use c_bpf.Runtime.{
  Kernel, Cap, Machine, cbpf_fail, cbpf_consume, cbpf_trace, bind_cell, gate_bind, gate_acquire,
  gate_read, gate_use, resolve, gate, next32, u64_max,
}
use c_bpf.Runtime.Invoke.{Call, run_calls}

module _ (k : Kernel) where
  -- The call failed the invocation; left the cells and the views; bound the next cell; or cleared one.
  pub data Change (m m' : Machine k) : Type 0 where
    fails : m'.s.failed ≡ true → Change m m'
    keeps :
        m'.s.cells ≡ m.s.cells → m'.s.views ≡ m.s.views → m'.s.acquired ≡ m.s.acquired → Change m m'
    binds :
        (view object : Cap k)
        → m.s.acquired ≢ 2
        → m'.s.cells ≡ store m.s.cells m.s.acquired object
        → m'.s.views ≡ store m.s.views m.s.acquired view
        → m'.s.acquired ≡ next32 m.s.acquired
        → Change m m'
    clears :
        (i : ℕ)
        → m'.s.cells ≡ store m.s.cells i (k.tag_clear (m.s.cells i))
        → m'.s.views ≡ m.s.views
        → m'.s.acquired ≡ m.s.acquired
        → Change m m'

  pub record IsStep (m : Machine k) (r : Machine k × Cap k) : Type 0 where
    pub entered : r.0.s.entered ≡ m.s.entered
    pub failed : m.s.failed ≡ true → r.0.s.failed ≡ true
    pub change : Change m r.0

  cbpf_fail-IsStep : (pc : ℕ) (m : Machine k) → IsStep m (cbpf_fail k pc m)
  unfolding cbpf_fail cbpf_trace
  cbpf_fail-IsStep pc m = record { entered = refl; failed = λ _. refl; change = fails refl }

  gate_bind-IsStep :
      (pc : ℕ) (view object : Cap k) (m : Machine k)
      → m.s.acquired ≢ 2
      → IsStep m (gate_bind k pc view object m)
  unfolding gate_bind bind_cell cbpf_trace
  gate_bind-IsStep pc view object m ne =
      if_rule (IsStep m) (not (k.tag_get view) || not (k.tag_get object)) _ _
        (λ _. cbpf_fail-IsStep pc m)
        λ _. record {
          entered = refl;
          failed = λ h. h;
          change = binds view object ne refl refl refl;
        }

  gate_acquire-IsStep :
      (argument : Cap k) (pc : ℕ) (m : Machine k) → IsStep m (gate_acquire k argument pc m)
  unfolding gate_acquire cbpf_trace
  gate_acquire-IsStep argument pc m =
      if_rule (IsStep m) (k.tag_get argument || ltb 1 (k.address_get argument)) _ _
        (λ _. cbpf_fail-IsStep pc m)
        λ _.
          if_rule (IsStep m) (not (k.address_get argument == 0)) _ _
            (λ _. record { entered = refl; failed = λ h. h; change = keeps refl refl refl })
            λ _.
              if_rule (IsStep m) (m.s.acquired == 2) _ _ (λ _. cbpf_fail-IsStep pc m)
                λ free. gate_bind-IsStep pc _ _ m (λ e. ground arith)

  gate_use-IsStep : (operation i pc : ℕ) (m : Machine k) → IsStep m (gate_use k operation i pc m)
  unfolding gate_use gate_read cbpf_consume cbpf_trace
  gate_use-IsStep operation i pc m =
      if_rule (IsStep m) (i == m.s.acquired || not (k.tag_get (m.s.cells i))) _ _
        (λ _. cbpf_fail-IsStep pc m)
        λ _.
          if_rule (IsStep m) (operation == 2) _ _
            (λ _. record { entered = refl; failed = λ h. h; change = keeps refl refl refl })
            λ _. record { entered = refl; failed = λ h. h; change = clears i refl refl refl }

  pub gate-IsStep :
      (argument : Cap k) (operation pc : ℕ) (m : Machine k)
      → IsStep m (gate k argument operation pc m)
  unfolding gate
  gate-IsStep argument operation pc m =
      if_rule (IsStep m) (not m.s.entered || m.s.failed) _ _ (λ _. cbpf_fail-IsStep pc m)
        λ _.
          if_rule (IsStep m) (operation == 1) _ _ (λ _. gate_acquire-IsStep argument pc m)
            λ _.
              if_rule (IsStep m) (not (operation == 2) && not (operation == 3)) _ _
                (λ _. cbpf_fail-IsStep pc m) λ _. gate_use-IsStep operation _ pc m

  -- What every gate keeps, a run of calls keeps.
  pub run_calls-keeps :
      (P : Machine k → Type 0)
      → ((m : Machine k) (r : Machine k × Cap k) → IsStep m r → P m → P r.0)
      → (cs : List (Call k)) (m : Machine k) → P m
      → P (run_calls k cs m).0
  unfolding run_calls
  run_calls-keeps P step [] m h = h
  run_calls-keeps P step (c ∷ cs) m h =
      let h' =
        step m (gate k c.argument c.operation c.pc m) (gate-IsStep c.argument c.operation c.pc m)
          h in
      elim (Bool-cases (k.address_get (gate k c.argument c.operation c.pc m).1 == u64_max)) [
        | inl e ↦ rw e h'
        | inr e ↦ rw e (run_calls-keeps P step cs _ h')
      ]

  pub run_calls-entered :
      (cs : List (Call k)) (m : Machine k)
      → m.s.entered ≡ true
      → (run_calls k cs m).0.s.entered ≡ true
  run_calls-entered = run_calls-keeps (λ m. m.s.entered ≡ true) (λ m r step h. step.entered ∙ h)

  pub resolve-le :
      (r i : ℕ) (views : ℕ → Cap k) (argument : Cap k) → resolve k r i views argument ≤ i + r
  unfolding resolve
  resolve-le zero i views argument = omega arith
  resolve-le (suc r) i views argument =
      let rest = resolve-le r (i + 1) views argument in ground (arith, rest)

  -- A view that is resolved stays so when one more is bound.
  pub resolve-store :
      (r i j n : ℕ) (views : ℕ → Cap k) (view argument : Cap k)
      → resolve k r i views argument ≡ j
      → j < n
      → n ≡ i + r
      → resolve k (r + 1) i (store views n view) argument ≡ j
  unfolding resolve
  resolve-store zero i j n views view argument e lt q = absurd (omega (arith, e, lt, q))
  resolve-store (suc r) i j n views view argument e lt q =
      elim (Bool-cases (k.is_equal_exact argument (views i))) [
        | inl h ↦ ground (arith, e, h, q)
        | inr h ↦
            let rest =
              resolve-store r (i + 1) j n views view argument (ground (arith, e, h)) lt
                (omega (arith, q)) in
            ground (arith, h, rest, q)
      ]
