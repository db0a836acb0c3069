-- ===== src/Reference/Cleanup.antt =====
-- The label `finish` of `cbpf_run`: what the cleanup loop changes.
use c_bpf.Base.{
  ℕ, zero, suc, ◌+◌, ◌≤◌, ◌<◌, ◌≡◌, refl, ◌∙◌, ◌⊎◌, true, false, arith, ltb, flag, length,
}
use c_bpf.Ir.{Result, log}
use c_bpf.Reference.{Machine, clean_cell, clean}
use c_bpf.Reference.Invariant.{Inv, clean-Inv}

-- What the result says apart from the cells' accounts.
pub record SameVerdict (r r' : Result) : Type 0 where
  pub status : r'.status ≡ r.status
  pub trap : r'.trap ≡ r.trap
  pub pc : r'.pc ≡ r.pc
  pub returned : r'.returned ≡ r.returned
  pub acquired : r'.acquired ≡ r.acquired
  pub reads : r'.reads ≡ r.reads

-- Cells `i` to `i + k - 1` are consumed, each by at most one event.
record Cleans (i k : ℕ) (m m' : Machine) : Type 0 where
  verdict : SameVerdict m.result m'.result
  events : m'.result.event_count ≤ m.result.event_count + k
  dead : (j : ℕ) → m'.live j ≡ true → (m.live j ≡ true) × ((j < i) ⊎ (i + k ≤ j))

clean_cell-Cleans : (i : ℕ) (m : Machine) → Cleans i 1 m (clean_cell i m)
unfolding clean_cell log
clean_cell-Cleans i m = record {
  verdict = ground arith;
  events = ground arith;
  dead = λ j h. ground arith;
}

clean-Cleans : (k i : ℕ) (m : Machine) → Cleans i k m (clean k i m)
unfolding clean
clean-Cleans zero i m = record {
  verdict = record {
    status = refl;
    trap = refl;
    pc = refl;
    returned = refl;
    acquired = refl;
    reads = refl;
  };
  events = omega arith;
  dead = λ j h. (h, ground arith);
}
clean-Cleans (suc k) i m =
    let a = clean_cell-Cleans i m in
    let b = clean-Cleans k (i + 1) (clean_cell i m) in
    record {
      verdict = record {
        status = b.verdict.status ∙ a.verdict.status;
        trap = b.verdict.trap ∙ a.verdict.trap;
        pc = b.verdict.pc ∙ a.verdict.pc;
        returned = b.verdict.returned ∙ a.verdict.returned;
        acquired = b.verdict.acquired ∙ a.verdict.acquired;
        reads = b.verdict.reads ∙ a.verdict.reads;
      };
      events = omega (arith, a.events, b.events);
      dead = λ j h.
          let (before, out) = b.dead j h in
          let (start, out') = a.dead j before in (start, omega arith);
    }

-- Every acquisition is consumed exactly once, by the program or by cleanup; only the baseline
-- reference is left, and the events fit the array.
pub record IsSettled (n : ℕ) (r : Result) : Type 0 where
  pub room : r.acquired ≤ 2
  pub refs : r.object_refs ≡ 1
  pub once : (i : ℕ) → r.explicit_by_cell i + r.cleanup_by_cell i ≡ flag (ltb i r.acquired)
  pub totals : r.explicit_releases + r.cleanup_releases ≡ r.acquired
  pub events : r.event_count ≤ n + 2
  pub logged : r.event_count ≡ length r.events

pub clean-IsSettled :
    (n : ℕ) (m : Machine)
    → Inv m
    → m.result.event_count ≤ n
    → IsSettled n (clean m.result.acquired 0 m).result
      × SameVerdict m.result (clean m.result.acquired 0 m).result
clean-IsSettled n m i c = (
  record {
    room = i'.0.room;
    refs = ground (arith, i'.0.refs, none_live 0, none_live 1);
    once = λ j. ground (arith, none_live j, i'.0.cell j);
    totals = ground (
      arith,
      i'.0.explicit,
      i'.0.cleaned,
      i'.0.cell 0,
      i'.0.cell 1,
      none_live 0,
      none_live 1,
      i'.0.room,
    );
    events = omega (arith, d.events, i.0.room);
    logged = i'.0.logged;
  },
  d.verdict,
)
  where
    m' : Machine
    m' = clean m.result.acquired 0 m

    d : Cleans 0 m.result.acquired m m'
    d = clean-Cleans m.result.acquired 0 m

    i' : Inv m'
    i' = clean-Inv m.result.acquired 0 m i

    -- A live cell was issued, and cleanup has passed the cells that were.
    none_live : (j : ℕ) → m'.live j ≡ false
    none_live j = ground (arith, d.dead j, i.0.cell j)

pub IsSettled-mono : {n k : ℕ} (r : Result) → n ≤ k → IsSettled n r → IsSettled k r
IsSettled-mono r h s = record {
  room = s.room;
  refs = s.refs;
  once = s.once;
  totals = s.totals;
  events = omega (arith, s.events);
  logged = s.logged;
}
