-- ===== src/Native/Flags.antt =====
-- linux/ownership/cbpf_runtime.c: a gate marks the invocation as failed only where it answers with
-- failure, and leaves the mark of entry.
use c_bpf.Base.{ℕ, ◌≡◌, refl, not, ◌&&◌, ◌||◌, ◌⊎◌, inl, inr, ltb, ◌==◌, if_rule}
use c_bpf.Runtime.{
  Kernel, Machine, Cap, failure, cbpf_trace, cbpf_fail, gate_bind, gate_acquire, gate_use, gate,
}

module _ (k : Kernel) where
  pub record Flagged (m : Machine k) (r : Machine k × Cap k) : Type 0 where
    pub entered : r.0.s.entered ≡ m.s.entered
    pub failed : (r.0.s.failed ≡ m.s.failed) ⊎ (r.1 ≡ failure k)

  same-Flagged :
      (m : Machine k) (r : Machine k × Cap k)
      → r.0.s.entered ≡ m.s.entered
      → r.0.s.failed ≡ m.s.failed
      → Flagged m r
  same-Flagged m r p q = record { entered = p; failed = inl q }

  cbpf_fail-Flagged : (pc : ℕ) (m : Machine k) → Flagged m (cbpf_fail k pc m)
  unfolding cbpf_fail cbpf_trace
  cbpf_fail-Flagged pc m = record { entered = refl; failed = inr refl }

  gate_bind-Flagged :
      (pc : ℕ) (view object : Cap k) (m : Machine k) → Flagged m (gate_bind k pc view object m)
  unfolding gate_bind
  gate_bind-Flagged pc view object m =
      if_rule (Flagged m) (not (k.tag_get view) || not (k.tag_get object)) _ _
        (λ _. cbpf_fail-Flagged pc m) (λ _. same-Flagged m _ refl refl)

  gate_acquire-Flagged :
      (argument : Cap k) (pc : ℕ) (m : Machine k) → Flagged m (gate_acquire k argument pc m)
  unfolding gate_acquire
  gate_acquire-Flagged argument pc m =
      if_rule (Flagged m) (k.tag_get argument || ltb 1 (k.address_get argument)) _ _
        (λ _. cbpf_fail-Flagged pc m)
        λ _.
          if_rule (Flagged m) (not (k.address_get argument == 0)) _ _
            (λ _. same-Flagged m _ refl refl)
            λ _.
              if_rule (Flagged m) (m.s.acquired == 2) _ _ (λ _. cbpf_fail-Flagged pc m)
                (λ _. gate_bind-Flagged pc _ _ m)

  gate_use-Flagged : (operation i pc : ℕ) (m : Machine k) → Flagged m (gate_use k operation i pc m)
  unfolding gate_use
  gate_use-Flagged operation i pc m =
      if_rule (Flagged m) (i == m.s.acquired || not (k.tag_get (m.s.cells i))) _ _
        (λ _. cbpf_fail-Flagged pc m)
        λ _.
          if_rule (Flagged m) (operation == 2) _ _ (λ _. same-Flagged m _ refl refl)
            (λ _. same-Flagged m _ refl refl)

  pub gate-Flagged :
      (argument : Cap k) (operation pc : ℕ) (m : Machine k)
      → Flagged m (gate k argument operation pc m)
  unfolding gate
  gate-Flagged argument operation pc m =
      if_rule (Flagged m) (not m.s.entered || m.s.failed) _ _ (λ _. cbpf_fail-Flagged pc m)
        λ _.
          if_rule (Flagged m) (operation == 1) _ _ (λ _. gate_acquire-Flagged argument pc m)
            λ _.
              if_rule (Flagged m) (not (operation == 2) && not (operation == 3)) _ _
                (λ _. cbpf_fail-Flagged pc m) (λ _. gate_use-Flagged operation _ pc m)
