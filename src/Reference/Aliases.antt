-- ===== src/Reference/Aliases.antt =====
-- The identity of an acquisition in `cbpf_run`: its aliases are consumed with it, and no others.
use mathlib.Core.Path.{subst}
use c_bpf.Base.{
  ℕ, suc, ◌-◌, ◌≤◌, ◌<◌, ◌≡◌, ◌≢◌, refl, ◌∙◌, ◌⊎◌, inl, inr, true, false, List, some, arith,
  Bool-cases, get_elem?,
}
use c_bpf.Ir.{
  Insn, Opcode, acquire, copy, spill, reload, read, release, br_null, return, other, log, stale,
  trapped,
}
use c_bpf.Reference.{
  Machine, Effect, go, fault, done, acquire_cell, issue, release_at, with_live, read_cell,
  release_cell, exec, Round, on, finish, settle, round,
}
use c_bpf.Reference.Invariant.{AfterEffect, AfterRound, IsIssued}

-- Cell `i` was issued in this run, and its right has been used up.
abbrev pub IsConsumed : ℕ → Machine → Type 0
IsConsumed i m = (i < m.result.acquired) × (m.live i ≡ false)

exec-IsConsumed :
    (i : ℕ) (op : Opcode) (x : Insn) (pc : ℕ) (m : Machine)
    → IsConsumed i m
    → AfterEffect (IsConsumed i) (exec op x pc m)
unfolding exec acquire_cell issue read_cell release_cell with_live release_at log
exec-IsConsumed i acquire x pc m c = ground arith
exec-IsConsumed i copy x pc m c = c
exec-IsConsumed i spill x pc m c = c
exec-IsConsumed i reload x pc m c = c
exec-IsConsumed i read x pc m c = ground arith
exec-IsConsumed i release x pc m c = ground arith
exec-IsConsumed i br_null x pc m c = c
exec-IsConsumed i return x pc m c = c
exec-IsConsumed i (other k) x pc m c = c

settle-IsConsumed :
    (i : ℕ) (op : Opcode) (pc : ℕ) (e : Effect)
    → AfterEffect (IsConsumed i) e
    → AfterRound (IsConsumed i) (settle op pc e)
unfolding settle log
settle-IsConsumed i op pc (go t n m) c = c
settle-IsConsumed i op pc (fault f t m) c = c
settle-IsConsumed i op pc (done m) c = c

round-IsConsumed :
    (i : ℕ) (x : Insn) (pc : ℕ) (m : Machine)
    → IsConsumed i m
    → AfterRound (IsConsumed i) (round x pc m)
unfolding round
round-IsConsumed i x pc m c = settle-IsConsumed i x.op pc _ (exec-IsConsumed i x.op x pc _ c)

-- Rounds of the loop, up to the state `m'` at `n'`.
pub data Reaches (p : List Insn) (n' : ℕ) (m' : Machine) : ℕ → Machine → Type 0 where
  here : {n : ℕ} {m : Machine} → n ≡ n' → m ≡ m' → Reaches p n' m' n m
  next :
      {pc : ℕ} {m : Machine} (x : Insn) (n : ℕ) (k : Machine)
      → get_elem? p pc ≡ some x
      → round x pc m ≡ on n k
      → Reaches p n' m' n k
      → Reaches p n' m' pc m

-- No cell is reissued: what is consumed stays so.
Reaches-IsConsumed :
    (i : ℕ) {p : List Insn} {n' : ℕ} {m' : Machine} {n : ℕ} {m : Machine}
    → Reaches p n' m' n m
    → IsConsumed i m
    → IsConsumed i m'
Reaches-IsConsumed i (here q e) c = subst (IsConsumed i) e c
Reaches-IsConsumed i (next {pc} {m} x n k at_pc e r) c =
    Reaches-IsConsumed i r (subst (AfterRound (IsConsumed i)) e (round-IsConsumed i x pc m c))

abbrev pub IsUse : Opcode → Type 0
IsUse op = (op ≡ read) ⊎ (op ≡ release)

-- The round stopped with a STALE trap, and the operation had no effect on the object or on a cell.
abbrev pub StopsStale : Machine → Round → Type 0
StopsStale m (on n m') = ⊥
StopsStale m (finish m') =
    (m'.result.status ≡ trapped)
    × (m'.result.trap ≡ stale)
    × (m'.result.object_refs ≡ m.result.object_refs)
    × (m'.result.reads ≡ m.result.reads)
    × (m'.result.explicit_releases ≡ m.result.explicit_releases)
    × (m'.live ≡ m.live)

with_live-stale :
    (i t : ℕ) (m : Machine) (k : Effect)
    → t ≡ suc i
    → m.live i ≡ false
    → with_live m t k ≡ fault stale t m
unfolding with_live
with_live-stale i t m k e c = ground arith

with_live-live :
    (i t : ℕ) (m : Machine) (k : Effect) → t ≡ suc i → m.live i ≡ true → with_live m t k ≡ k
unfolding with_live
with_live-live i t m k e c = ground arith

use_consumed :
    (i : ℕ) (op : Opcode) (x : Insn) (pc : ℕ) (m : Machine)
    → IsUse op
    → m.regs x.dst ≡ suc i
    → m.live i ≡ false
    → StopsStale m (settle op pc (exec op x pc m))
unfolding settle exec read_cell release_cell log
use_consumed i acquire x pc m u t c = ground arith
use_consumed i read x pc m u t c =
    rw (with_live-stale i _ m _ t c) (refl, refl, refl, refl, refl, refl)
use_consumed i release x pc m u t c =
    rw (with_live-stale i _ m _ t c) (refl, refl, refl, refl, refl, refl)
use_consumed i _ x pc m u t c = ground arith

-- What a successful round of RELEASE does to the cells and the reference count.
abbrev pub Frees : ℕ → Machine → Round → Type 0
Frees i m (on n m') =
    IsConsumed i m'
    × (m'.result.object_refs ≡ m.result.object_refs - 1)
    × ((j : ℕ) → j ≢ i → m'.live j ≡ m.live j)
    × (m'.regs ≡ m.regs)
    × (m'.spills ≡ m.spills)
Frees i m (finish m') = Unit

release_cell-Frees :
    (i t pc : ℕ) (m : Machine)
    → t ≡ suc i
    → t ≤ m.result.acquired
    → Frees i m (settle release pc (release_cell t pc m))
unfolding settle release_cell release_at log
release_cell-Frees i t pc m e h = elim (Bool-cases (m.live i)) [
  | inl l ↦ rw (with_live-live i t m _ e l) (ground arith, refl, λ j ne. ground arith, refl, refl)
  | inr d ↦ rw (with_live-stale i t m _ e d) tt
]

round-Frees :
    (i : ℕ) (op : Opcode) (x : Insn) (pc : ℕ) (m : Machine)
    → op ≡ release
    → m.regs x.dst ≡ suc i
    → IsIssued m
    → Frees i m (settle op pc (exec op x pc (record m { result = record (m.result) { pc = pc } })))
unfolding exec
round-Frees i acquire x pc m u e w = ground arith
round-Frees i release x pc m u e w = release_cell-Frees i _ pc _ e (w.regs x.dst)
round-Frees i _ x pc m u e w = ground arith

-- A RELEASE that goes on consumes the cell that its handle names and drops one reference; every
-- other cell, every register and every spill slot is as before. The state is one in which all
-- handles are of issued cells.
pub round_release :
    (i : ℕ) (x : Insn) (pc : ℕ) (m : Machine) {n : ℕ} {m' : Machine}
    → IsIssued m
    → x.op ≡ release
    → m.regs x.dst ≡ suc i
    → round x pc m ≡ on n m'
    → Frees i m (on n m')
unfolding round
round_release i x pc m w u e r = subst (Frees i m) r (round-Frees i x.op x pc m u e w)

-- After a RELEASE that goes on, from a state in which all handles are of issued cells, and after any
-- number of further rounds, a READ or RELEASE through any register that holds the released handle
-- stops with a STALE trap and has no effect on the cells, the references or the reads.
pub release_revokes :
    (i : ℕ) (p : List Insn) (x y : Insn) (pc : ℕ) (m : Machine) {n n' : ℕ} {k m' : Machine}
    → IsIssued m
    → x.op ≡ release
    → m.regs x.dst ≡ suc i
    → round x pc m ≡ on n k
    → Reaches p n' m' n k
    → IsUse y.op
    → m'.regs y.dst ≡ m.regs x.dst
    → StopsStale m' (round y n' m')
unfolding round
release_revokes i p x y pc m {n' = n'} {m' = m'} w u e r reach used alias =
    let gone = (Reaches-IsConsumed i reach (round_release i x pc m w u e r).0).1 in
    use_consumed i y.op y n' (record m' { result = record (m'.result) { pc = n' } }) used
      (alias ∙ e) gone
