-- ===== src/Jit.antt =====
-- linux/ownership/cbpf_jit.c: the bounded native compiler.
pub mod Admit
pub mod Compile
pub mod Emit
pub mod Execution
pub mod Transfer
pub mod Image
pub mod Joins
pub mod Soundness
pub mod Termination
pub mod Acquisitions
use c_bpf.Base.{ℕ, Bool, true, false, not, ◌&&◌, ◌||◌, ℤ, if◌then◌else◌}

-- The instruction codes that the compiler tells apart: `BPF_ALU64 | BPF_MOV | BPF_X` and so on.
pub data Code : Type 0 where
  mov_x mov_k stx_dw ldx_dw jeq_k call exit : Code
  other : ℕ → Code

-- `struct bpf_insn`.
pub record BpfInsn : Type 0 where
  pub code : Code
  pub dst_reg : ℕ
  pub src_reg : ℕ
  pub off : ℤ
  pub imm : ℤ

-- The set of bits UNINIT, ZERO, SCALAR and HANDLE that a `u8` kind holds.
pub record Kind : Type 0 where
  pub uninit : Bool
  pub zero : Bool
  pub scalar : Bool
  pub handle : Bool

abbrev pub no_bits : Kind
no_bits = record { uninit = false; zero = false; scalar = false; handle = false }

abbrev pub only_uninit : Kind
only_uninit = record no_bits { uninit = true }

abbrev pub only_zero : Kind
only_zero = record no_bits { zero = true }

abbrev pub only_scalar : Kind
only_scalar = record no_bits { scalar = true }

abbrev pub only_handle : Kind
only_handle = record no_bits { handle = true }

abbrev pub handle_or_zero : Kind
handle_or_zero = record no_bits { zero = true; handle = true }

-- `a | b`.
unfoldable pub union : Kind → Kind → Kind
union a b = record {
  uninit = a.uninit || b.uninit;
  zero = a.zero || b.zero;
  scalar = a.scalar || b.scalar;
  handle = a.handle || b.handle;
}

-- `kind` as a condition.
unfoldable pub nonempty : Kind → Bool
nonempty a = a.uninit || a.zero || a.scalar || a.handle

-- `scalar`.
unfoldable pub is_scalar : Kind → Bool
unfolding nonempty
is_scalar a = nonempty a && not (a.uninit || a.handle)

-- `defined`.
unfoldable pub is_defined : Kind → Bool
unfolding nonempty
is_defined a = nonempty a && not a.uninit

-- `kind == HANDLE`.
unfoldable pub is_handle : Kind → Bool
is_handle a = a.handle && not (a.uninit || a.zero || a.scalar)

pub record Flow : Type 0 where
  pub reg : ℕ → Kind
  pub spill : Kind
  pub reached : Bool

-- `join` into one entry of the table.
unfoldable pub join : Flow → Flow → Flow
unfolding union
join destination source =
    if destination.reached
    then record {
      reg = λ r. union (destination.reg r) (source.reg r);
      spill = union destination.spill source.spill;
      reached = true;
    }
    else source
