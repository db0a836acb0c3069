-- ===== src/Reference/Invariant.antt =====
-- The state of `cbpf_run`: what every round of the loop and every cleanup keeps.
use c_bpf.Base.{
  ℕ, zero, suc, ◌+◌, ◌≤◌, ◌<◌, ◌≡◌, Bool, true, arith, ltb, flag, Bool-cases, ◌-◌, ◌==◌, is, ℤ,
  refl, length, length-append, inl, inr,
}
use c_bpf.Ir.{
  Insn, Opcode, acquire, copy, spill, reload, read, release, br_null, return, other, Result, log,
  EventKind, Status, Trap, step, trap_event, cleanup, trapped, invalid,
}
use c_bpf.Ir
use c_bpf.Reference.{
  Machine, issue, release_at, clean_at, logs, Effect, go, fault, done, acquire_cell, with_live,
  read_cell, release_cell, exec, Round, on, finish, settle, round, clean_cell, clean, start,
}

-- What the counters and the flags of the cells say of one another.
pub record IsBalanced (live : ℕ → Bool) (r : Result) : Type 0 where
  pub room : r.acquired ≤ 2
  pub refs : r.object_refs ≡ 1 + flag (live 0) + flag (live 1)
  pub cell :
      (i : ℕ) → r.explicit_by_cell i + r.cleanup_by_cell i + flag (live i) ≡ flag (ltb i r.acquired)
  pub explicit : r.explicit_releases ≡ r.explicit_by_cell 0 + r.explicit_by_cell 1
  pub cleaned : r.cleanup_releases ≡ r.cleanup_by_cell 0 + r.cleanup_by_cell 1
  pub logged : r.event_count ≡ length r.events

-- Every handle in a register or a spill slot is a token that was issued.
pub record IsIssued (m : Machine) : Type 0 where
  pub regs : (j : ℕ) → m.regs j ≤ m.result.acquired
  pub spills : (j : ℕ) → m.spills j ≤ m.result.acquired

abbrev pub Inv : Machine → Type 0
Inv m = IsBalanced m.live m.result × IsIssued m

abbrev pub AfterEffect {ℓ} : (Machine → Type ℓ) → Effect → Type ℓ
AfterEffect P (go t n m) = P m
AfterEffect P (fault e t m) = P m
AfterEffect P (done m) = P m

abbrev pub AfterRound {ℓ} : (Machine → Type ℓ) → Round → Type ℓ
AfterRound P (on n m) = P m
AfterRound P (finish m) = P m

log-IsBalanced :
    (live : ℕ → Bool) (r : Result) (k : EventKind) (op : Opcode) (pc token : ℕ)
    → IsBalanced live r
    → IsBalanced live (log r k op pc token)
unfolding log
log-IsBalanced live r k op pc token v = record {
  room = v.room;
  refs = v.refs;
  cell = v.cell;
  explicit = v.explicit;
  cleaned = v.cleaned;
  logged = omega (arith, v.logged, length-append r.events);
}

issue-Inv : (d : ℕ) (m : Machine) → m.result.acquired < 2 → Inv m → Inv (issue d m)
unfolding issue
issue-Inv d m h (v, w) = (
  record {
    room = omega arith;
    refs = ground (arith, v.refs, v.cell 0, v.cell 1);
    cell = λ i. ground (arith, v.cell i);
    explicit = v.explicit;
    cleaned = v.cleaned;
    logged = v.logged;
  },
  record { regs = λ j. ground (arith, w.regs j); spills = λ j. omega (arith, w.spills j) },
)

acquire_cell-Inv : (x : Insn) (pc : ℕ) (m : Machine) → Inv m → AfterEffect Inv (acquire_cell x pc m)
unfolding acquire_cell
acquire_cell-Inv x pc m (v, w) = elim (Bool-cases (is x.imm 0)) [
  | inl e ↦ rw e (v, record { regs = λ j. ground (arith, w.regs j); spills = w.spills })
  | inr e ↦ rw e (elim (Bool-cases (m.result.acquired == 2)) [
    | inl full ↦ rw full (v, w)
    | inr free ↦ rw free (issue-Inv x.dst m (ground (arith, v.room)) (v, w))
  ])
]

-- A live cell was issued, and its one consumption is to come.
pub live-fresh :
    (i : ℕ) (m : Machine)
    → IsBalanced m.live m.result
    → m.live i ≡ true
    → (i < m.result.acquired) × (m.result.explicit_by_cell i ≡ 0) × (m.result.cleanup_by_cell i ≡ 0)
live-fresh i m v h = ground (arith, v.cell i)

release_at-Inv : (i : ℕ) (m : Machine) → m.live i ≡ true → Inv m → Inv (release_at i m)
unfolding release_at
release_at-Inv i m h (v, w) = (
  record {
    room = v.room;
    refs = ground (arith, v.refs, v.room, live-fresh i m v h);
    cell = λ j. ground (arith, v.cell j);
    explicit = ground (arith, v.explicit, v.room, live-fresh i m v h);
    cleaned = v.cleaned;
    logged = v.logged;
  },
  record { regs = w.regs; spills = w.spills },
)

clean_at-Inv : (i : ℕ) (m : Machine) → m.live i ≡ true → Inv m → Inv (clean_at i m)
unfolding clean_at
clean_at-Inv i m h (v, w) = (
  record {
    room = v.room;
    refs = ground (arith, v.refs, v.room, live-fresh i m v h);
    cell = λ j. ground (arith, v.cell j);
    explicit = v.explicit;
    cleaned = ground (arith, v.cleaned, v.room, live-fresh i m v h);
    logged = v.logged;
  },
  record { regs = w.regs; spills = w.spills },
)

-- A rule for the operations that act on a live token only.
with_live_rule {ℓ} :
    (P : Machine → Type ℓ) (m : Machine) (t : ℕ) (k : Effect)
    → P m
    → (m.live (t - 1) ≡ true → AfterEffect P k)
    → AfterEffect P (with_live m t k)
unfolding with_live
with_live_rule P m t k stay act = elim (Bool-cases (t == 0)) [
  | inl e ↦ rw e stay
  | inr e ↦ rw e (elim (Bool-cases (m.live (t - 1))) [ inl l ↦ rw l (act l) | inr l ↦ rw l stay ])
]

read_cell-Inv : (t pc : ℕ) (m : Machine) → Inv m → AfterEffect Inv (read_cell t pc m)
unfolding read_cell
read_cell-Inv t pc m (v, w) =
    with_live_rule Inv m t _ (v, w)
      (λ _. (
        record {
          room = v.room;
          refs = v.refs;
          cell = v.cell;
          explicit = v.explicit;
          cleaned = v.cleaned;
          logged = v.logged;
        },
        record { regs = w.regs; spills = w.spills },
      ))

release_cell-Inv : (t pc : ℕ) (m : Machine) → Inv m → AfterEffect Inv (release_cell t pc m)
unfolding release_cell
release_cell-Inv t pc m i = with_live_rule Inv m t _ i (λ l. release_at-Inv (t - 1) m l i)

logs-Inv :
    (m : Machine) (k : EventKind) (op : Opcode) (pc token : ℕ) → Inv m → Inv (logs m k op pc token)
unfolding log
logs-Inv m k op pc token (v, w) =
    (log-IsBalanced m.live m.result k op pc token v, record { regs = w.regs; spills = w.spills })

-- The fields that no part of the invariant reads.
abbrev retag : Machine → Status → Trap → ℕ → ℤ → Machine
retag m s t pc v = record m {
  result = record (m.result) { status = s; trap = t; pc = pc; returned = v };
}

retag-Inv : (m : Machine) (s : Status) (t : Trap) (pc : ℕ) (v : ℤ) → Inv m → Inv (retag m s t pc v)
retag-Inv m s t pc i (v, w) = (
  record {
    room = v.room;
    refs = v.refs;
    cell = v.cell;
    explicit = v.explicit;
    cleaned = v.cleaned;
    logged = v.logged;
  },
  record { regs = w.regs; spills = w.spills },
)

exec-Inv :
    (op : Opcode) (x : Insn) (pc : ℕ) (m : Machine) → Inv m → AfterEffect Inv (exec op x pc m)
unfolding exec
exec-Inv acquire x pc m i = acquire_cell-Inv x pc m i
exec-Inv copy x pc m (v, w) =
    (v, record { regs = λ j. ground (arith, w.regs j, w.regs x.src); spills = w.spills })
exec-Inv spill x pc m (v, w) =
    (v, record { regs = w.regs; spills = λ j. ground (arith, w.spills j, w.regs x.src) })
exec-Inv reload x pc m (v, w) =
    (v, record { regs = λ j. ground (arith, w.regs j, w.spills x.src); spills = w.spills })
exec-Inv read x pc m i = read_cell-Inv (m.regs x.dst) pc m i
exec-Inv release x pc m i = release_cell-Inv (m.regs x.dst) pc m i
exec-Inv br_null x pc m i = i
exec-Inv return x pc m i =
    logs-Inv _ step return pc 0 (retag-Inv m Ir.Status.returned m.result.trap m.result.pc x.imm i)
exec-Inv (other k) x pc m i = retag-Inv m invalid m.result.trap m.result.pc m.result.returned i

settle-Inv :
    (op : Opcode) (pc : ℕ) (e : Effect) → AfterEffect Inv e → AfterRound Inv (settle op pc e)
unfolding settle
settle-Inv op pc (go t n m) i = logs-Inv m step op pc t i
settle-Inv op pc (fault f t m) i =
    logs-Inv _ trap_event op pc t (retag-Inv m trapped f m.result.pc m.result.returned i)
settle-Inv op pc (done m) i = i

pub round-Inv : (x : Insn) (pc : ℕ) (m : Machine) → Inv m → AfterRound Inv (round x pc m)
unfolding round
round-Inv x pc m i =
    settle-Inv x.op pc _
      (exec-Inv x.op x pc _ (retag-Inv m m.result.status m.result.trap pc m.result.returned i))

pub start-Inv : Inv start
unfolding start
start-Inv = (
  record {
    room = omega arith;
    refs = refl;
    cell = λ i. ground arith;
    explicit = refl;
    cleaned = refl;
    logged = refl;
  },
  record { regs = λ j. omega arith; spills = λ j. omega arith },
)

pub clean_cell-Inv : (i : ℕ) (m : Machine) → Inv m → Inv (clean_cell i m)
unfolding clean_cell
clean_cell-Inv i m v = elim (Bool-cases (m.live i)) [
  | inl l ↦ rw l (logs-Inv _ cleanup release _ _ (clean_at-Inv i m l v))
  | inr l ↦ rw l v
]

pub clean-Inv : (k i : ℕ) (m : Machine) → Inv m → Inv (clean k i m)
unfolding clean
clean-Inv zero i m v = v
clean-Inv (suc k) i m v = clean-Inv k (i + 1) (clean_cell i m) (clean_cell-Inv i m v)
