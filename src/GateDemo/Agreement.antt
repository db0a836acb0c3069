-- ===== src/GateDemo/Agreement.antt =====
-- src/gate_demo.c: the comparisons of one case, where the gates give the reference's result with the
-- metrics that it calls for.
use c_bpf.Base.{
  ℕ, zero, suc, ◌+◌, ◌≤◌, ◌≡◌, ◌≢◌, refl, ap, ◌∙◌, Bool, true, false, not, ◌&&◌, ◌⊎◌, inl, inr,
  Bool-cases, arith, ◌==◌, leb, flag, if◌then◌else◌, ℤ, pos, negsuc,
}
use c_bpf.Ir.{
  Opcode, acquire, copy, spill, reload, read, release, br_null, return, other, Result, Event,
  EventKind, step, trap_event, cleanup, Status, trapped, invalid, Trap, no_trap, null, stale,
  exhausted, cbpf_cells, cbpf_max_events, Insn,
}
use c_bpf.Ir
use c_bpf.Demo.{same_status, same_trap}
use c_bpf.Demo.Boundaries.{same_kind, same_op}
use c_bpf.Gate.Platform.{Build}
use c_bpf.Gate.Metering.{expected_metrics}
use c_bpf.Gate.{Metrics}
use c_bpf.GateDemo.{
  same_int, entry, all_below, same_event, equal_result, expected_result, Tester, metrics_hold,
  compare, agree,
}
use c_bpf.GateDemo.Cases.{Expectation}

==_refl : (n : ℕ) → (n == n) ≡ true
==_refl n = ground arith

same_status_refl : (s : Status) → same_status s s ≡ true
same_status_refl Ir.Status.returned = refl
same_status_refl trapped = refl
same_status_refl invalid = refl

same_trap_refl : (t : Trap) → same_trap t t ≡ true
same_trap_refl no_trap = refl
same_trap_refl null = refl
same_trap_refl stale = refl
same_trap_refl exhausted = refl

same_int_refl : (x : ℤ) → same_int x x ≡ true
same_int_refl (pos n) = ==_refl n
same_int_refl (negsuc n) = ==_refl n

same_kind_refl : (k : EventKind) → same_kind k k ≡ true
same_kind_refl step = refl
same_kind_refl trap_event = refl
same_kind_refl cleanup = refl

same_op_refl : (op : Opcode) → same_op op op ≡ true
same_op_refl acquire = refl
same_op_refl copy = refl
same_op_refl spill = refl
same_op_refl reload = refl
same_op_refl read = refl
same_op_refl release = refl
same_op_refl br_null = refl
same_op_refl return = refl
same_op_refl (other k) = ==_refl k

infixl 4 ◌⊗◌
◌⊗◌ : {a b : Bool} → a ≡ true → b ≡ true → (a && b) ≡ true
p ⊗ q = rw (p, q) refl

same_event_refl : (e : Event) → same_event e e ≡ true
same_event_refl e =
    same_kind_refl e.kind
    ⊗ same_op_refl e.op
    ⊗ ==_refl e.pc
    ⊗ ==_refl e.token
    ⊗ ==_refl e.object_refs

all_below-true : (n : ℕ) (test : ℕ → Bool) → ((i : ℕ) → test i ≡ true) → all_below n test ≡ true
unfolding all_below
all_below-true zero test h = refl
all_below-true (suc n) test h = h n ⊗ all_below-true n test h

equal_result_refl : (r : Result) → equal_result r r ≡ true
unfolding equal_result
equal_result_refl r =
    same_status_refl r.status
    ⊗ same_trap_refl r.trap
    ⊗ ==_refl r.pc
    ⊗ same_int_refl r.returned
    ⊗ ==_refl r.acquired
    ⊗ ==_refl r.reads
    ⊗ ==_refl r.explicit_releases
    ⊗ ==_refl r.cleanup_releases
    ⊗ ==_refl r.last_read
    ⊗ ==_refl r.object_refs
    ⊗ ==_refl r.event_count
    ⊗ all_below-true cbpf_cells _
        (λ i. ==_refl (r.explicit_by_cell i) ⊗ ==_refl (r.cleanup_by_cell i))
    ⊗ all_below-true cbpf_max_events _ (λ i. same_event_refl (entry r.events i))

module _ (b : Build) where
  -- The static sizes are unset, or the build's.
  abbrev pub Steady : Tester → Type 0
  Steady t =
      (t.cell_bytes ≡ 0) ⊎ ((t.cell_bytes ≡ b.cell_bytes) × (t.handle_bytes ≡ b.handle_bytes))

  -- The sizes that the metrics set.
  abbrev pub set_sizes : Tester → Tester
  set_sizes t = record t { cell_bytes = b.cell_bytes; handle_bytes = b.handle_bytes }

module _ (b : Build) (sized : b.cell_bytes ≢ 0) where
  metrics_hold-expected :
      (r : Result) (t : Tester)
      → Steady b t
      → metrics_hold b b.handle_bytes r (expected_metrics b r) t ≡ (true, set_sizes b t)
  unfolding metrics_hold
  metrics_hold-expected r t h =
      ap (λ x. (agree b b.handle_bytes m m x, x)) set ∙ ap (λ x. (x, set_sizes b t)) agreed
    where
      m : Metrics
      m = expected_metrics b r

      set :
          (if t.cell_bytes == 0
            then record t { cell_bytes = m.cell_bytes; handle_bytes = m.handle_bytes }
            else t)
          ≡ set_sizes b t
      set = elim h [ inl z ↦ rw (zero_test z) refl | inr (p, q) ↦ rw (other_test p) cc ]
        where
          zero_test : t.cell_bytes ≡ 0 → (t.cell_bytes == 0) ≡ true
          zero_test z = ground (arith, z)

          other_test : t.cell_bytes ≡ b.cell_bytes → (t.cell_bytes == 0) ≡ false
          other_test p = ground (arith, p, sized)

      agreed : agree b b.handle_bytes m m (set_sizes b t) ≡ true
      agreed =
          ==_refl m.acquisitions
          ⊗ ==_refl m.reads
          ⊗ ==_refl m.releases
          ⊗ ==_refl m.cleanups
          ⊗ purecap
          ⊗ refl
          ⊗ ==_refl m.restricted_handles
          ⊗ ==_refl m.tag_clears
          ⊗ sized_test
          ⊗ ==_refl b.cell_bytes
          ⊗ ==_refl b.handle_bytes
          ⊗ ==_refl b.handle_bytes
        where
          purecap : (if b.purecap then b.purecap else not b.purecap) ≡ true
          purecap = elim (Bool-cases b.purecap) [ inl e ↦ rw e refl | inr e ↦ rw e refl ]

          sized_test : not (b.cell_bytes == 0) ≡ true
          sized_test = ground (arith, sized)

  leb_of : {m n : ℕ} → m ≤ n → leb m n ≡ true
  leb_of h = ground arith

  pub compare-expected :
      (r : Result) (e : Expectation) (t : Tester)
      → r.event_count ≤ cbpf_max_events
      → Steady b t
      → compare b b.handle_bytes r (r, expected_metrics b r) e t ≡ (
        not (expected_result r e),
        record (set_sizes b t) {
          cases = t.cases + 1;
          matched = t.matched + flag (expected_result r e);
        },
      )
  unfolding compare
  compare-expected r e t h steady =
      judged (record t { cases = t.cases + 1 }) (equal_result_refl r) (leb_of h)
        (metrics_hold-expected r (record t { cases = t.cases + 1 }) steady)
    where
      meets : Bool
      meets = expected_result r e

      judged :
          {same bounded : Bool} {metered : Bool × Tester} (t' : Tester) {u : Tester}
          → same ≡ true
          → bounded ≡ true
          → metered ≡ (true, u)
          → (let checked = if bounded then metered else (false, t') in
              let good = (same && meets && meets) && checked.0 in
              ◌≡◌ {A = Bool × Tester}
                (not good, record (checked.1) { matched = checked.1.matched + flag good })
                (not meets, record u { matched = u.matched + flag meets }))
      judged t' p q m =
          rw (p, q, m) (elim (Bool-cases meets) [ inl v ↦ rw v refl | inr v ↦ rw v refl ])
