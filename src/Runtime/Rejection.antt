-- ===== src/Runtime/Rejection.antt =====
-- linux/ownership/cbpf_runtime.c: a rejection has no effect, and a view that a program has released
-- is rejected in the rest of its run.
use c_bpf.Base.{
  ℕ, ◌+◌, ◌≤◌, ◌<◌, ◌≡◌, refl, true, false, not, ◌||◌, ◌⊎◌, inl, inr, List, arith, Bool-cases, ◌==◌,
}
use c_bpf.Cheri.{IsCheri}
use c_bpf.Runtime.{
  Kernel, Cap, Machine, cbpf_fail, cbpf_consume, cbpf_trace, failure, resolve, gate_use, gate,
  next32,
}
use c_bpf.Runtime.Invoke.{Call, run_calls}
use c_bpf.Runtime.Steps.{
  Change, fails, keeps, binds, clears, IsStep, run_calls-keeps, resolve-le, resolve-store,
}

module _ (k : Kernel) (laws : IsCheri k.cheri) where
  -- The invocation has failed, and the object, the cells and the views are as in `m`.
  pub record IsRejection (m : Machine k) (r : Machine k × Cap k) : Type 0 where
    pub answer : r.1 ≡ failure k
    pub failed : r.0.s.failed ≡ true
    pub refs : r.0.refs ≡ m.refs
    pub cells : r.0.s.cells ≡ m.s.cells
    pub views : r.0.s.views ≡ m.s.views
    pub acquired : r.0.s.acquired ≡ m.s.acquired
    pub released : r.0.s.released ≡ m.s.released
    pub reads : r.0.s.reads ≡ m.s.reads

  cbpf_fail-IsRejection : (pc : ℕ) (m : Machine k) → IsRejection m (cbpf_fail k pc m)
  unfolding cbpf_fail cbpf_trace
  cbpf_fail-IsRejection pc m = record {
    answer = refl;
    failed = refl;
    refs = refl;
    cells = refl;
    views = refl;
    acquired = refl;
    released = refl;
    reads = refl;
  }

  -- Once an invocation has failed, every further call is rejected: it answers with failure and leaves
  -- the references, the cells, the views and the counts as they were.
  gate_after_failure :
      (argument : Cap k) (operation pc : ℕ) (m : Machine k)
      → m.s.failed ≡ true
      → IsRejection m (gate k argument operation pc m)
  unfolding gate
  gate_after_failure argument operation pc m e = elim (Bool-cases m.s.entered) [
    | inl h ↦ rw stop (cbpf_fail-IsRejection pc m)
    | inr h ↦ rw stop (cbpf_fail-IsRejection pc m)
  ]
    where
      stop : (not m.s.entered || m.s.failed) ≡ true
      stop = ground arith

  unentered :
      (argument : Cap k) (operation pc : ℕ) (m : Machine k)
      → m.s.entered ≡ false
      → gate k argument operation pc m ≡ cbpf_fail k pc m
  unfolding gate
  unentered argument operation pc m e = rw e refl

  -- Operations 2 and 3.
  abbrev pub IsUse : ℕ → Type 0
  IsUse operation = (operation ≡ 2) ⊎ (operation ≡ 3)

  gate_of_use :
      (argument : Cap k) (operation pc : ℕ) (m : Machine k)
      → IsUse operation
      → m.s.entered ≡ true
      → m.s.failed ≡ false
      → gate k argument operation pc m
        ≡ gate_use k operation (resolve k m.s.acquired 0 m.s.views argument) pc m
  unfolding gate
  gate_of_use argument operation pc m u e f = elim u [
    | inl q ↦ rw q (rw go refl)
    | inr q ↦ rw q (rw go refl)
  ]
    where
      go : (not m.s.entered || m.s.failed) ≡ false
      go = ground arith

  -- The invocation has failed, or `argument` is the view of the cleared cell `i`.
  abbrev Revoked : ℕ → Cap k → Machine k → Type 0
  Revoked i argument m =
      (m.s.failed ≡ true)
      ⊎ ((i < m.s.acquired)
          × (m.s.acquired ≤ 2)
          × (k.tag_get (m.s.cells i) ≡ false)
          × (resolve k m.s.acquired 0 m.s.views argument ≡ i))

  gate_use-dead :
      (operation i pc : ℕ) (m : Machine k)
      → k.tag_get (m.s.cells i) ≡ false
      → IsRejection m (gate_use k operation i pc m)
  unfolding gate_use
  gate_use-dead operation i pc m dead = rw stop (cbpf_fail-IsRejection pc m)
    where
      stop : (i == m.s.acquired || not (k.tag_get (m.s.cells i))) ≡ true
      stop = ground arith

  -- No gate gives a revoked view its authority back.
  changed-Revoked :
      (i : ℕ) (argument : Cap k) (m m' : Machine k)
      → Change k m m'
      → i < m.s.acquired
      → m.s.acquired ≤ 2
      → k.tag_get (m.s.cells i) ≡ false
      → resolve k m.s.acquired 0 m.s.views argument ≡ i
      → Revoked i argument m'
  changed-Revoked i argument m m' (fails f) lt room dead at_i = inl f
  changed-Revoked i argument m m' (keeps c v a) lt room dead at_i =
      inr (rw (a, c, v) (lt, room, dead, at_i))
  changed-Revoked i argument m m' (binds view object ne c v a) lt room dead at_i =
      let next : next32 m.s.acquired ≡ m.s.acquired + 1 = omega (arith, room) in
      inr (
        rw (a, c, v, next)
          (
            omega (arith, lt),
            omega (arith, room, ne),
            ground (arith, lt, dead),
            resolve-store k m.s.acquired 0 i m.s.acquired m.s.views view argument at_i lt
                (omega arith),
          ))
  changed-Revoked i argument m m' (clears j c v a) lt room dead at_i =
      inr (rw (a, c, v) (lt, room, ground (arith, dead, laws.clear_untagged (m.s.cells j)), at_i))

  step-Revoked :
      (i : ℕ) (argument : Cap k) (m : Machine k) (r : Machine k × Cap k)
      → IsStep k m r
      → Revoked i argument m
      → Revoked i argument r.0
  step-Revoked i argument m r step (inl f) = inl (step.failed f)
  step-Revoked i argument m r step (inr (lt, room, dead, at_i)) =
      changed-Revoked i argument m r.0 step.change lt room dead at_i

  use-Revoked :
      (i : ℕ) (argument : Cap k) (operation pc : ℕ) (m : Machine k)
      → IsUse operation
      → Revoked i argument m
      → IsRejection m (gate k argument operation pc m)
  use-Revoked i argument operation pc m u (inl f) = gate_after_failure argument operation pc m f
  use-Revoked i argument operation pc m u (inr (lt, room, dead, at_i)) =
      elim (Bool-cases m.s.entered) [
        | inr e ↦ rw (unentered argument operation pc m e) (cbpf_fail-IsRejection pc m)
        | inl e ↦ elim (Bool-cases m.s.failed) [
          | inl f ↦ gate_after_failure argument operation pc m f
          | inr f ↦
              rw (gate_of_use argument operation pc m u e f)
                (rw at_i (gate_use-dead operation i pc m dead))
        ]
      ]

  gate_use-Revoked :
      (pc : ℕ) (argument : Cap k) (m : Machine k)
      → m.s.acquired ≤ 2
      → let i = resolve k m.s.acquired 0 m.s.views argument in
        Revoked i argument (gate_use k 3 i pc m).0
  unfolding gate_use
  gate_use-Revoked pc argument m room =
      let i = resolve k m.s.acquired 0 m.s.views argument in
      let le = resolve-le k m.s.acquired 0 m.s.views argument in
      elim (Bool-cases (i == m.s.acquired || not (k.tag_get (m.s.cells i)))) [
        | inl e ↦ rw e (inl (cbpf_fail-IsRejection pc m).failed)
        | inr e ↦ rw e (
            inr (
              ground (arith, le),
              room,
              unfold cbpf_consume in ground (arith, laws.clear_untagged (m.s.cells i)),
              refl,
            ))
      ]

  release-Revoked :
      (argument : Cap k) (pc : ℕ) (m : Machine k)
      → m.s.acquired ≤ 2
      → Revoked (resolve k m.s.acquired 0 m.s.views argument) argument (gate k argument 3 pc m).0
  release-Revoked argument pc m room = elim (Bool-cases m.s.entered) [
    | inr e ↦ rw (unentered argument 3 pc m e) (inl (cbpf_fail-IsRejection pc m).failed)
    | inl e ↦ elim (Bool-cases m.s.failed) [
      | inl f ↦ inl (gate_after_failure argument 3 pc m f).failed
      | inr f ↦
          rw (gate_of_use argument 3 pc m (inr refl) e f) (gate_use-Revoked pc argument m room)
    ]
  ]

  -- In an invocation with at most two acquisitions, after operation 3 on a view, accepted or not, and
  -- after any further gate calls of the program, acquisitions among them, operation 2 or 3 on the same
  -- view is rejected: it answers with failure, the invocation has failed, and the references, the
  -- cells, the views and the counts stay as they were.
  pub release_revokes_view :
      (argument : Cap k) (pc : ℕ) (calls : List (Call k)) (operation pc' : ℕ) (m : Machine k)
      → IsUse operation
      → m.s.acquired ≤ 2
      → let later = (run_calls k calls (gate k argument 3 pc m).0).0 in
        IsRejection later (gate k argument operation pc' later)
  release_revokes_view argument pc calls operation pc' m u room =
      let i = resolve k m.s.acquired 0 m.s.views argument in
      use-Revoked i argument operation pc' _ u (
        run_calls-keeps k (Revoked i argument) (step-Revoked i argument) calls _
          (release-Revoked argument pc m room))
