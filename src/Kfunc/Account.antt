-- ===== src/Kfunc/Account.antt =====
-- linux/kfunc/cbpf_kfunc.c: the counters and the references follow the allocations.
use c_bpf.Base.{
  ℕ, ◌+◌, ◌%◌, ◌^◌, ◌<◌, ◌≡◌, ◌≢◌, refl, Bool, true, false, Option, none, some, List, [], ◌∷◌,
  arith, length,
}
use c_bpf.Runtime.{Refcount, IsRefcount}
use c_bpf.Kfunc.{Cell, Module, find_cell, cbpf_ref_acquire}

-- Addresses of allocations differ.
abbrev pub Apart : List Cell → Type 0
Apart [] = Unit
Apart (c ∷ cs) = (find_cell c.address cs ≡ none) × Apart cs

module _ (rc : Refcount) (counts : IsRefcount rc) where
  -- The object's references are the baseline and one for each allocation; the counters agree with
  -- the number of allocations, as far as 64 bits tell.
  pub record IsAccounted (m : Module rc) : Type 0 where
    pub apart : Apart m.cells
    pub refs : rc.value m.refs ≡ 1 + length m.cells
    pub live : m.live ≡ length m.cells % 2 ^ 64
    pub balance : (m.releases + length m.cells) % 2 ^ 64 ≡ m.acquisitions

  -- `cbpf_ref_acquire` keeps the account, whether NULL is asked for, `kzalloc` fails or it returns an
  -- address that is not in use, as long as the count does not saturate.
  pub acquire-IsAccounted :
      (want_null : Bool) (allocated : Option ℕ) (m : Module rc)
      → ((a : ℕ) → allocated ≡ some a → find_cell a m.cells ≡ none)
      → length m.cells + 2 < 2 ^ 31
      → IsAccounted m
      → IsAccounted (cbpf_ref_acquire rc want_null allocated m).0
  unfolding cbpf_ref_acquire
  acquire-IsAccounted true allocated m unused small v = v
  acquire-IsAccounted false none m unused small v = v
  acquire-IsAccounted false (some a) m unused small v = record {
    apart = (unused a refl, v.apart);
    refs = ground (arith, v.refs, counts.value-inc m.refs);
    live = omega (arith, v.live);
    balance = omega (arith, v.balance);
  }

  -- What a release of the allocation at `ref` does: it goes, every other one stays, and the object
  -- loses the one reference that it held.
  pub record Frees (ref : ℕ) (m m' : Module rc) : Type 0 where
    pub account : IsAccounted m'
    pub gone : find_cell ref m'.cells ≡ none
    pub others : (b : ℕ) → b ≢ ref → find_cell b m'.cells ≡ find_cell b m.cells
    pub refs : rc.value m'.refs + 1 ≡ rc.value m.refs
