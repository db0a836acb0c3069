-- ===== src/Kfunc.antt =====
-- linux/kfunc/cbpf_kfunc.c: the ordinary kfuncs. A cell is known by its address, and its handle is
-- the first field, at the same address. The code dereferences a handle with no check. An access to a
-- cell that is not there has no defined behaviour in C, and here no result: `none` stands for no test
-- of the code. That the verifier admits no such access is not part of this.
pub mod Account
use c_bpf.Base.{ℕ, ◌+◌, ◌-◌, ◌%◌, ◌^◌, Bool, Option, none, some, List, [], ◌∷◌, ◌==◌, if◌then◌else◌}
use c_bpf.Runtime.{Refcount}

-- `struct cbpf_cell`; the object is the one static object, and `reserved` is NULL.
pub record Cell : Type 0 where
  pub address : ℕ
  pub id : ℕ

-- `atomic64_inc` and `atomic64_dec`.
abbrev pub inc64 : ℕ → ℕ
inc64 n = (n + 1) % 2 ^ 64

abbrev pub dec64 : ℕ → ℕ
dec64 n = (n + 2 ^ 64 - 1) % 2 ^ 64

-- The memory behind a handle: the allocation that stands at the address, if any.
unfoldable pub find_cell : ℕ → List Cell → Option Cell
find_cell a [] = none
find_cell a (c ∷ cs) = if c.address == a then some c else find_cell a cs

-- `kfree`.
unfoldable pub free : ℕ → List Cell → List Cell
free a [] = []
free a (c ∷ cs) = if c.address == a then cs else c ∷ free a cs

module _ (rc : Refcount) where
  -- The allocations, the object's references and the four counters.
  pub record Module : Type 0 where
    pub cells : List Cell
    pub refs : rc.Count
    pub acquisitions : ℕ
    pub releases : ℕ
    pub live : ℕ
    pub reads : ℕ

  unfoldable pub bind : ℕ → Module → Module
  bind a m = record m {
    cells = record { address = a; id = inc64 m.acquisitions } ∷ m.cells;
    refs = rc.inc m.refs;
    acquisitions = inc64 m.acquisitions;
    live = inc64 m.live;
  }

  -- `allocated` is what `kzalloc` returns.
  unfoldable pub cbpf_ref_acquire : Bool → Option ℕ → Module → Module × Option ℕ
  unfolding bind
  cbpf_ref_acquire want_null allocated m =
      if want_null
      then (m, none)
      else elim allocated [ none ↦ (m, none) | some a ↦ (bind a m, some a) ]

  -- The object's value is 42 throughout.
  unfoldable pub cbpf_ref_read : ℕ → Module → Option (Module × ℕ)
  unfolding find_cell
  cbpf_ref_read ref m = elim (find_cell ref m.cells) [
    | none ↦ none
    | some c ↦ some (record m { reads = inc64 m.reads }, 42)
  ]

  unfoldable pub cbpf_ref_release : ℕ → Module → Option Module
  unfolding find_cell free
  cbpf_ref_release ref m = elim (find_cell ref m.cells) [
    | none ↦ none
    | some c ↦ some (record m {
      cells = free ref m.cells;
      refs = rc.dec m.refs;
      releases = inc64 m.releases;
      live = dec64 m.live;
    })
  ]
