-- ===== src/Runtime/Invariant.antt =====
-- linux/ownership/cbpf_runtime.c: the account of cells and references that every gate keeps.
use c_bpf.Base.{
  ℕ, ◌+◌, ◌-◌, ◌^◌, ◌≤◌, ◌<◌, ◌≡◌, Bool, true, false, not, ◌&&◌, ◌||◌, arith, flag, ◌==◌, if_rule,
  ltb,
}
use c_bpf.Cheri.{IsCheri}
use c_bpf.Runtime.{
  Kernel, IsRefcount, Machine, Cap, TraceEvent, cbpf_trace, cbpf_fail, clear_cell, drop_ref,
  cbpf_consume, bind_cell, gate_bind, gate_acquire, gate_read, gate_use, gate,
}

module _ (k : Kernel) (base : ℕ) where
  -- `base` references belong to others; each cell with a tagged capability holds one more.
  pub record IsAccounted (m : Machine k) : Type 0 where
    pub room : m.s.acquired ≤ 2
    pub refs :
        k.refcount.value m.refs
        ≡ base + flag (k.tag_get (m.s.cells 0)) + flag (k.tag_get (m.s.cells 1))
    pub released :
        m.s.released + flag (k.tag_get (m.s.cells 0)) + flag (k.tag_get (m.s.cells 1))
        ≡ m.s.acquired
    pub unissued : (i : ℕ) → m.s.acquired ≤ i → k.tag_get (m.s.cells i) ≡ false

  record Kept (r : Machine k × Cap k) : Type 0 where
    kept : IsAccounted r.0

  pub cbpf_trace-IsAccounted :
      (e : TraceEvent) (pc id : ℕ) (m : Machine k)
      → IsAccounted m
      → IsAccounted (cbpf_trace k e pc id m)
  unfolding cbpf_trace
  cbpf_trace-IsAccounted e pc id m v = record {
    room = v.room;
    refs = v.refs;
    released = v.released;
    unissued = v.unissued;
  }

  cbpf_fail-IsAccounted :
      (pc : ℕ) (m : Machine k) → IsAccounted m → IsAccounted (cbpf_fail k pc m).0
  unfolding cbpf_fail cbpf_trace
  cbpf_fail-IsAccounted pc m v = record {
    room = v.room;
    refs = v.refs;
    released = v.released;
    unissued = v.unissued;
  }

  gate_read-IsAccounted :
      (value i pc : ℕ) (m : Machine k) → IsAccounted m → IsAccounted (gate_read k value i pc m).0
  unfolding gate_read cbpf_trace
  gate_read-IsAccounted value i pc m v = record {
    room = v.room;
    refs = v.refs;
    released = v.released;
    unissued = v.unissued;
  }

  module _ (laws : IsCheri k.cheri) (counts : IsRefcount k.refcount) (base_pos : 0 < base)
      (base_small : base + 2 ≤ 2 ^ 31 - 1) where
    bind_cell-IsAccounted :
        (view object : Cap k) (m : Machine k)
        → m.s.acquired < 2
        → k.tag_get object ≡ true
        → IsAccounted m
        → IsAccounted (bind_cell k view object m)
    unfolding bind_cell
    bind_cell-IsAccounted view object m lt tagged v = record {
      room = omega arith;
      refs = ground (
        arith,
        v.refs,
        v.released,
        v.unissued m.s.acquired,
        v.unissued 1,
        counts.value-inc m.refs,
      );
      released = ground (arith, v.released, v.unissued m.s.acquired, v.unissued 1);
      unissued = λ i h. ground (arith, v.unissued i);
    }

    -- A live cell was issued.
    live-issued :
        (i : ℕ) (m : Machine k) → IsAccounted m → k.tag_get (m.s.cells i) ≡ true → i < m.s.acquired
    live-issued i m v h = ground (arith, v.unissued i)

    pub cbpf_consume-IsAccounted :
        (i pc : ℕ) (cleanup : Bool) (m : Machine k)
        → k.tag_get (m.s.cells i) ≡ true
        → IsAccounted m
        → IsAccounted (cbpf_consume k i pc cleanup m)
    unfolding cbpf_consume
    cbpf_consume-IsAccounted i pc cleanup m live v = cbpf_trace-IsAccounted _ pc _ _ dropped
      where
        open v use {room, refs, released, unissued}

        issued : i < m.s.acquired
        issued = live-issued i m v live

        dropped :
            IsAccounted
              (drop_ref k cleanup (cbpf_trace k TraceEvent.clears pc (i + 1) (clear_cell k i m)))
        dropped = record {
          room = room;
          refs = ground (
            arith,
            refs,
            room,
            issued,
            laws.clear_untagged (m.s.cells i),
            counts.value-dec m.refs,
          );
          released = ground (arith, released, room, issued, laws.clear_untagged (m.s.cells i));
          unissued = λ j h. ground (arith, unissued j, issued);
        }

    gate_bind-Kept :
        (pc : ℕ) (view object : Cap k) (m : Machine k)
        → m.s.acquired < 2
        → IsAccounted m
        → Kept (gate_bind k pc view object m)
    unfolding gate_bind
    gate_bind-Kept pc view object m lt v =
        if_rule Kept (not (k.tag_get view) || not (k.tag_get object)) _ _
          (λ _. record { kept = cbpf_fail-IsAccounted pc m v })
          λ tags. record {
            kept =
                cbpf_trace-IsAccounted _ pc _ _
                  (bind_cell-IsAccounted view object m lt (ground arith) v);
          }

    gate_acquire-Kept :
        (argument : Cap k) (pc : ℕ) (m : Machine k)
        → IsAccounted m
        → Kept (gate_acquire k argument pc m)
    unfolding gate_acquire
    gate_acquire-Kept argument pc m v =
        if_rule Kept (k.tag_get argument || ltb 1 (k.address_get argument)) _ _
          (λ stop. record { kept = cbpf_fail-IsAccounted pc m v })
          λ _.
            if_rule Kept (not (k.address_get argument == 0)) _ _
              (λ _. record { kept = cbpf_trace-IsAccounted _ pc 0 m v })
              λ _.
                if_rule Kept (m.s.acquired == 2) _ _
                  (λ stop. record { kept = cbpf_fail-IsAccounted pc m v })
                  λ free. gate_bind-Kept pc _ _ m (let room = v.room in ground arith) v

    gate_use-Kept :
        (operation i pc : ℕ) (m : Machine k) → IsAccounted m → Kept (gate_use k operation i pc m)
    unfolding gate_use
    gate_use-Kept operation i pc m v =
        if_rule Kept (i == m.s.acquired || not (k.tag_get (m.s.cells i))) _ _
          (λ stop. record { kept = cbpf_fail-IsAccounted pc m v })
          λ usable.
            if_rule Kept (operation == 2) _ _
              (λ _. record { kept = gate_read-IsAccounted 42 i pc m v })
              λ _. record { kept = cbpf_consume-IsAccounted i pc false m (ground arith) v }

    gate-Kept :
        (argument : Cap k) (operation pc : ℕ) (m : Machine k)
        → IsAccounted m
        → Kept (gate k argument operation pc m)
    unfolding gate
    gate-Kept argument operation pc m v =
        if_rule Kept (not m.s.entered || m.s.failed) _ _
          (λ stop. record { kept = cbpf_fail-IsAccounted pc m v })
          λ _.
            if_rule Kept (operation == 1) _ _ (λ _. gate_acquire-Kept argument pc m v)
              λ _.
                if_rule Kept (not (operation == 2) && not (operation == 3)) _ _
                  (λ stop. record { kept = cbpf_fail-IsAccounted pc m v })
                  λ _. gate_use-Kept operation _ pc m v

    -- Where the baseline is positive and two more references do not saturate the count, a gate keeps
    -- the account for any argument, operation and PC: the object's count is the baseline and one for
    -- each tagged cell, and the cells released and those tagged add up to those acquired, at most two.
    pub gate-IsAccounted :
        (argument : Cap k) (operation pc : ℕ) (m : Machine k)
        → IsAccounted m
        → IsAccounted (gate k argument operation pc m).0
    gate-IsAccounted argument operation pc m v = (gate-Kept argument operation pc m v).kept
