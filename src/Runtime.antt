-- ===== src/Runtime.antt =====
-- linux/ownership/cbpf_runtime.c: the kernel gates of one CPU. The intrinsics, the reference count
-- of <linux/refcount.h>, the addresses and the capabilities of the kernel are arguments.
pub mod Confinement
pub mod Enter
pub mod Gateway
pub mod Invariant
pub mod Invoke
pub mod Registers
pub mod Rejection
pub mod SelfTest
pub mod Steps
pub mod Teardown
use c_bpf.Base.{
  ℕ, zero, suc, ◌+◌, ◌-◌, ◌%◌, ◌^◌, ◌≤◌, ◌<◌, ◌≡◌, Bool, true, false, not, ◌&&◌, ◌||◌, Option, none,
  some, List, [], ◌∷◌, ◌++◌, ◌==◌, ltb, if◌then◌else◌, store,
}
use c_bpf.Cheri.{Cheri}

-- `refcount_t` with `refcount_inc`, `refcount_dec` and `refcount_read`.
pub record Refcount : Type 1 where
  pub Count : Type 0
  pub inc : Count → Count
  pub dec : Count → Count
  pub value : Count → ℕ

-- Below saturation it counts.
pub record IsRefcount (rc : Refcount) : Type 0 where
  pub value-inc :
      (n : rc.Count)
      → 0 < rc.value n
      → rc.value n < 2 ^ 31 - 1
      → rc.value (rc.inc n) ≡ rc.value n + 1
  pub value-dec : (n : rc.Count) → 1 < rc.value n → rc.value (rc.dec n) + 1 ≡ rc.value n

pub record Kernel : Type 1 where
  pub cheri : Cheri
  pub open cheri use *
  pub refcount : Refcount
  -- `cheri_ddc_get()`, the addresses of the two cells and of the object, its size, and the value of
  -- `CHERI_PERM_LOAD | CHERI_PERM_GLOBAL`.
  pub ddc : Cap
  pub cell_address : ℕ → ℕ
  pub object_address : ℕ
  pub object_size : ℕ
  pub public_perms : ℕ

pub data TraceEvent : Type 0 where
  rejects clears cleans releases nulls acquires reads fails exits : TraceEvent

-- A line of `cbpf_trace`.
pub record TraceLine : Type 0 where
  pub seq : ℕ
  pub event : TraceEvent
  pub pc : ℕ
  pub id : ℕ
  pub acquired : ℕ
  pub released : ℕ
  pub reads : ℕ
  pub cleanup : ℕ
  pub refs : ℕ
  pub tag_a : Bool
  pub tag_b : Bool

-- `++n` on a `u32`.
abbrev pub next32 : ℕ → ℕ
next32 n = (n + 1) % 2 ^ 32

abbrev pub u64_max : ℕ
u64_max = 2 ^ 64 - 1

module _ (k : Kernel) where
  abbrev pub Cap : Type 0
  Cap = k.cheri.Cap

  -- `struct cbpf_invocation`; a program is known by its address.
  pub record Invocation : Type 0 where
    pub prog : ℕ
    pub cells : ℕ → Cap
    pub views : ℕ → Cap
    pub acquired : ℕ
    pub released : ℕ
    pub reads : ℕ
    pub cleanup : ℕ
    pub sequence : ℕ
    pub entered : Bool
    pub failed : Bool

  -- An invocation with the shared object's reference count and the lines printed so far.
  pub record Machine : Type 0 where
    pub s : Invocation
    pub refs : k.refcount.Count
    pub lines : List TraceLine

  unfoldable pub cbpf_exact : ℕ → ℕ → ℕ → Cap
  cbpf_exact address size perms =
      let cap = k.perms_and (k.bounds_set_exact (k.address_set k.ddc address) size) perms in
      if not (k.tag_get cap)
        || k.is_sealed cap
        || not (k.address_get cap == address)
        || not (k.base_get cap == address)
        || not (k.length_get cap == size)
        || not (k.perms_get cap == perms)
      then k.null
      else cap

  unfoldable pub cbpf_trace : TraceEvent → ℕ → ℕ → Machine → Machine
  cbpf_trace event pc id m = record m {
    s = record (m.s) { sequence = next32 m.s.sequence };
    lines = m.lines ++ line ∷ [];
  }
    where
      line : TraceLine
      line = record {
        seq = next32 m.s.sequence;
        event = event;
        pc = pc;
        id = id;
        acquired = m.s.acquired;
        released = m.s.released;
        reads = m.s.reads;
        cleanup = m.s.cleanup;
        refs = k.refcount.value m.refs;
        tag_a = k.tag_get (m.s.cells 0);
        tag_b = k.tag_get (m.s.cells 1);
      }

  abbrev pub failure : Cap
  failure = k.integer u64_max

  -- `cbpf_fail` with an invocation.
  unfoldable pub cbpf_fail : ℕ → Machine → Machine × Cap
  unfolding cbpf_trace
  cbpf_fail pc m =
      (cbpf_trace rejects pc 0 (record m { s = record (m.s) { failed = true } }), failure)

  -- The stored authority goes before the provider effect.
  unfoldable pub clear_cell : ℕ → Machine → Machine
  clear_cell i m = record m {
    s = record (m.s) { cells = store m.s.cells i (k.tag_clear (m.s.cells i)) };
  }

  unfoldable pub drop_ref : Bool → Machine → Machine
  drop_ref cleanup m = record m {
    refs = k.refcount.dec m.refs;
    s = record (m.s) {
      released = next32 m.s.released;
      cleanup = if cleanup then next32 m.s.cleanup else m.s.cleanup;
    };
  }

  unfoldable pub cbpf_consume : ℕ → ℕ → Bool → Machine → Machine
  unfolding clear_cell drop_ref cbpf_trace
  cbpf_consume i pc cleanup m =
      cbpf_trace (if cleanup then cleans else releases) pc (i + 1)
        (drop_ref cleanup (cbpf_trace clears pc (i + 1) (clear_cell i m)))

  -- The effects of an acquisition, once both capabilities are known to be representable.
  unfoldable pub bind_cell : Cap → Cap → Machine → Machine
  bind_cell view object m = record m {
    refs = k.refcount.inc m.refs;
    s = record (m.s) {
      cells = store m.s.cells m.s.acquired object;
      views = store m.s.views m.s.acquired view;
      acquired = next32 m.s.acquired;
    };
  }

  unfoldable pub gate_bind : ℕ → Cap → Cap → Machine → Machine × Cap
  unfolding cbpf_fail bind_cell cbpf_trace
  gate_bind pc view object m =
      if not (k.tag_get view) || not (k.tag_get object)
      then cbpf_fail pc m
      else (cbpf_trace acquires pc (m.s.acquired + 1) (bind_cell view object m), view)

  -- Operation 1.
  unfoldable pub gate_acquire : Cap → ℕ → Machine → Machine × Cap
  unfolding cbpf_fail gate_bind cbpf_exact cbpf_trace
  gate_acquire argument pc m =
      if k.tag_get argument || ltb 1 (k.address_get argument)
      then cbpf_fail pc m
      else if not (k.address_get argument == 0)
      then (cbpf_trace nulls pc 0 m, k.integer 0)
      else if m.s.acquired == 2
      then cbpf_fail pc m
      else gate_bind pc (cbpf_exact (k.cell_address m.s.acquired) 16 k.public_perms)
          (cbpf_exact k.object_address k.object_size k.public_perms) m

  -- The loop that resolves a view, from index `i` with `r` rounds left: the index at its end.
  unfoldable pub resolve : ℕ → ℕ → (ℕ → Cap) → Cap → ℕ
  resolve zero i views view = i
  resolve (suc r) i views view =
      let rest = resolve r (i + 1) views view in if k.is_equal_exact view (views i) then i else rest

  unfoldable pub gate_read : ℕ → ℕ → ℕ → Machine → Machine × Cap
  unfolding cbpf_trace
  gate_read value i pc m = (
    cbpf_trace reads pc (i + 1) (record m { s = record (m.s) { reads = next32 m.s.reads } }),
    k.integer value,
  )

  -- Operations 2 and 3 on the view of cell `i`; the object's value is 42 throughout.
  unfoldable pub gate_use : ℕ → ℕ → ℕ → Machine → Machine × Cap
  unfolding cbpf_fail gate_read cbpf_consume
  gate_use operation i pc m =
      if i == m.s.acquired || not (k.tag_get (m.s.cells i))
      then cbpf_fail pc m
      else if operation == 2
      then gate_read 42 i pc m
      else (cbpf_consume i pc false m, k.integer 0)

  -- `cbpf_gate_impl` with an active invocation.
  unfoldable pub gate : Cap → ℕ → ℕ → Machine → Machine × Cap
  unfolding cbpf_fail gate_acquire resolve gate_use
  gate argument operation pc m =
      if not m.s.entered || m.s.failed
      then cbpf_fail pc m
      else if operation == 1
      then gate_acquire argument pc m
      else if not (operation == 2) && not (operation == 3)
      then cbpf_fail pc m
      else gate_use operation (resolve m.s.acquired 0 m.s.views argument) pc m

  -- The CPU: the invocation that `cbpf_active` points to, if any, and what is shared.
  pub record Cpu : Type 0 where
    pub active : Option Invocation
    pub refs : k.refcount.Count
    pub lines : List TraceLine

  abbrev pub resume : Machine → Cpu
  resume m = record { active = some m.s; refs = m.refs; lines = m.lines }

  unfoldable pub cbpf_gate_impl : Cap → ℕ → ℕ → Cpu → Cpu × Cap
  unfolding gate
  cbpf_gate_impl argument operation pc u = elim u.active [
    | none ↦ (u, failure)
    | some s ↦
        let r = gate argument operation pc (record { s = s; refs = u.refs; lines = u.lines }) in
        (resume r.0, r.1)
  ]
