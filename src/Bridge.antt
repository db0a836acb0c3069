-- ===== src/Bridge.antt =====
-- src/tools/conformance_bridge.c: the reference interpreter, or the gates, behind flat arrays of
-- `int64_t`. The input is an array of words; the output is the list of the words written.
pub mod Bounds
pub mod Sending
pub mod Reading
pub mod RoundTrip
pub mod Refusal
use c_bpf.Base.{
  ℕ, zero, suc, ◌+◌, ◌-◌, ◌*◌, ◌^◌, Bool, true, false, not, ◌&&◌, ◌||◌, Option, some, none, List,
  [], ◌∷◌, ◌++◌, ◌==◌, ltb, leb, if◌then◌else◌, ℤ, pos, negsuc, at_most, at_least, to_word, length,
}
use c_bpf.Ir.{
  Insn, Opcode, acquire, copy, spill, reload, read, release, br_null, return, other, Result, Event,
  EventKind, step, trap_event, cleanup, Status, trapped, invalid, Trap, no_trap, null, stale,
  exhausted, cbpf_regs, cbpf_spills, cbpf_cells, cbpf_max_insns, cbpf_max_events,
}
use c_bpf.Ir

abbrev pub op_code : Opcode → ℕ
op_code acquire = 0
op_code copy = 1
op_code spill = 2
op_code reload = 3
op_code read = 4
op_code release = 5
op_code br_null = 6
op_code return = 7
op_code (other k) = k

abbrev pub status_code : Status → ℕ
status_code Ir.Status.returned = 0
status_code trapped = 1
status_code invalid = 2

abbrev pub trap_code : Trap → ℕ
trap_code no_trap = 0
trap_code null = 1
trap_code stale = 2
trap_code exhausted = 3

abbrev pub kind_code : EventKind → ℕ
kind_code step = 0
kind_code trap_event = 1
kind_code cleanup = 2

-- `(enum cbpf_opcode)x`.
abbrev pub opcode_of : ℕ → Opcode
opcode_of k =
    if k == 0
    then acquire
    else if k == 1
    then copy
    else if k == 2
    then spill
    else if k == 3
    then reload
    else if k == 4
    then read
    else if k == 5
    then release
    else if k == 6
    then br_null
    else if k == 7
    then return
    else other k

-- The words of `info`, at CBPF_CONFORMANCE_GATE `gate`.
abbrev pub info : ℕ → List ℤ
info gate =
    pos cbpf_regs
    ∷ pos cbpf_spills
    ∷ pos cbpf_cells
    ∷ pos cbpf_max_insns
    ∷ pos cbpf_max_events
    ∷ pos (op_code acquire)
    ∷ pos (op_code copy)
    ∷ pos (op_code spill)
    ∷ pos (op_code reload)
    ∷ pos (op_code read)
    ∷ pos (op_code release)
    ∷ pos (op_code br_null)
    ∷ pos (op_code return)
    ∷ pos (status_code Ir.Status.returned)
    ∷ pos (status_code trapped)
    ∷ pos (status_code invalid)
    ∷ pos (trap_code no_trap)
    ∷ pos (trap_code null)
    ∷ pos (trap_code stale)
    ∷ pos (trap_code exhausted)
    ∷ pos (kind_code step)
    ∷ pos (kind_code trap_event)
    ∷ pos (kind_code cleanup)
    ∷ pos gate
    ∷ []

-- The words written, and the number that is returned.
unfoldable pub cbpf_conformance_info : ℕ → ℕ → List ℤ × ℕ
cbpf_conformance_info gate capacity =
    (if leb (length (info gate)) capacity then info gate else [], length (info gate))

-- `x >= 0 && x <= UINT_MAX`.
abbrev pub is_unsigned : ℤ → Bool
is_unsigned x = at_least x 0 && at_most x (2 ^ 32 - 1)

-- `x >= 0 && x < CBPF_OPCODE_COUNT`.
abbrev pub is_opcode : ℤ → Bool
is_opcode x = at_least x 0 && not (at_least x 8)

unfoldable pub decode_insn : ℤ → ℤ → ℤ → ℤ → Option Insn
decode_insn op dst src imm =
    if is_opcode op && is_unsigned dst && is_unsigned src
    then some (record {
      op = opcode_of (to_word 32 op);
      dst = to_word 32 dst;
      src = to_word 32 src;
      imm = imm;
    })
    else none

-- `program[i] = ...`, before the rest of the array.
abbrev pub prepend : Option Insn → Option (List Insn) → Option (List Insn)
prepend (some x) (some xs) = some (x ∷ xs)
prepend _ _ = none

-- The loop over the instructions: `k` rounds from `i`.
unfoldable pub decode : ℕ → ℕ → (ℕ → ℤ) → Option (List Insn)
unfolding decode_insn
decode zero i input = some []
decode (suc k) i input =
    let rest = decode k (i + 1) input in
    prepend
      (decode_insn (input (4 * i)) (input (4 * i + 1)) (input (4 * i + 2)) (input (4 * i + 3))) rest

abbrev pub event_words : Event → List ℤ → List ℤ
event_words e rest =
    pos (kind_code e.kind) ∷ pos (op_code e.op) ∷ pos e.pc ∷ pos e.token ∷ pos e.object_refs ∷ rest

-- The loop over the events: `k` rounds. The entries behind those written are zeros.
unfoldable pub write_events : ℕ → List Event → List ℤ
write_events zero es = []
write_events (suc k) [] =
    event_words (record { kind = step; op = acquire; pc = 0; token = 0; object_refs = 0 })
      (write_events k [])
write_events (suc k) (e ∷ es) = event_words e (write_events k es)

unfoldable pub write_result : Result → List ℤ
unfolding write_events
write_result r =
    pos (status_code r.status)
    ∷ pos (trap_code r.trap)
    ∷ pos r.pc
    ∷ r.returned
    ∷ pos r.acquired
    ∷ pos r.reads
    ∷ pos r.explicit_releases
    ∷ pos r.cleanup_releases
    ∷ pos r.last_read
    ∷ pos r.object_refs
    ∷ pos (r.explicit_by_cell 0)
    ∷ pos (r.explicit_by_cell 1)
    ∷ pos (r.cleanup_by_cell 0)
    ∷ pos (r.cleanup_by_cell 1)
    ∷ pos r.event_count
    ∷ write_events r.event_count r.events

abbrev pub output_words : ℕ
output_words = 11 + 2 * cbpf_cells + 5 * cbpf_max_events

-- From a decoded program on; `none` stands for the return of 0.
unfoldable pub report : (Option (List Insn) → Option Result) → Option (List Insn) → Option (List ℤ)
unfolding write_result
report run none = none
report run (some p) = elim (run (some p)) [
  | none ↦ none
  | some r ↦ if ltb cbpf_max_events r.event_count then none else some (write_result r)
]

-- `run` is `cbpf_run`, or `cbpf_gate_run` under CBPF_CONFORMANCE_GATE.
unfoldable pub cbpf_conformance_run :
    (Option (List Insn) → Option Result) → (ℕ → ℤ) → ℕ → ℕ → Option (List ℤ)
unfolding decode report
cbpf_conformance_run run input count capacity =
    let ran = report run (decode count 0 input) in
    if ltb cbpf_max_insns count || ltb capacity output_words then none else ran
