-- ===== src/Ir.antt =====
-- src/cbpf.h: the instructions, and what a run reports. An `unsigned` operand is a number, an
-- immediate a signed integer; `other` stands for a value of the enumeration that has no name.
pub mod Names
pub mod Validate
pub mod WellFormed
use c_bpf.Base.{ℕ, ◌+◌, List, [], ◌∷◌, ◌++◌, ℤ, pos}

abbrev pub cbpf_cells : ℕ
cbpf_cells = 2

abbrev pub cbpf_regs : ℕ
cbpf_regs = 4

abbrev pub cbpf_spills : ℕ
cbpf_spills = 2

abbrev pub cbpf_max_insns : ℕ
cbpf_max_insns = 64

abbrev pub cbpf_max_events : ℕ
cbpf_max_events = cbpf_max_insns + cbpf_cells

pub data Opcode : Type 0 where
  acquire copy spill reload read release br_null return : Opcode
  other : ℕ → Opcode

pub record Insn : Type 0 where
  pub op : Opcode
  pub dst : ℕ
  pub src : ℕ
  pub imm : ℤ

pub data Status : Type 0 where
  returned trapped invalid : Status

pub data Trap : Type 0 where
  no_trap null stale exhausted : Trap

pub data EventKind : Type 0 where
  step trap_event cleanup : EventKind

pub record Event : Type 0 where
  pub kind : EventKind
  pub op : Opcode
  pub pc : ℕ
  pub token : ℕ
  pub object_refs : ℕ

-- The array of events is the list of those written, oldest first.
pub record Result : Type 0 where
  pub status : Status
  pub trap : Trap
  pub pc : ℕ
  pub returned : ℤ
  pub acquired : ℕ
  pub reads : ℕ
  pub explicit_releases : ℕ
  pub cleanup_releases : ℕ
  pub last_read : ℕ
  pub object_refs : ℕ
  pub explicit_by_cell : ℕ → ℕ
  pub cleanup_by_cell : ℕ → ℕ
  pub event_count : ℕ
  pub events : List Event

-- The result after `memset(r, 0, sizeof(*r)); r->object_refs = 1`.
abbrev pub fresh : Result
fresh = record {
  status = Status.returned;
  trap = no_trap;
  pc = 0;
  returned = pos 0;
  acquired = 0;
  reads = 0;
  explicit_releases = 0;
  cleanup_releases = 0;
  last_read = 0;
  object_refs = 1;
  explicit_by_cell = λ _. 0;
  cleanup_by_cell = λ _. 0;
  event_count = 0;
  events = [];
}

-- `record` of src/cbpf.c and of src/gate.c: one more event, with the present reference count.
unfoldable pub log : Result → EventKind → Opcode → ℕ → ℕ → Result
log r kind op pc token = record r { event_count = r.event_count + 1; events = r.events ++ e ∷ [] }
  where
    e : Event
    e = record { kind = kind; op = op; pc = pc; token = token; object_refs = r.object_refs }
