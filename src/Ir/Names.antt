-- ===== src/Ir/Names.antt =====
-- src/cbpf.c: the printed names.
use Prim.Native.String.{String}
use c_bpf.Ir.{
  Status, Trap, Opcode, no_trap, null, stale, exhausted, trapped, invalid, acquire, copy, spill,
  reload, read, release, br_null, return, other,
}

unfoldable pub cbpf_status_name : Status → String
cbpf_status_name Status.returned = "returned"
cbpf_status_name trapped = "trapped"
cbpf_status_name invalid = "invalid"

unfoldable pub cbpf_trap_name : Trap → String
cbpf_trap_name no_trap = "none"
cbpf_trap_name null = "null"
cbpf_trap_name stale = "stale"
cbpf_trap_name exhausted = "exhausted"

unfoldable pub cbpf_opcode_name : Opcode → String
cbpf_opcode_name acquire = "acquire"
cbpf_opcode_name copy = "copy"
cbpf_opcode_name spill = "spill"
cbpf_opcode_name reload = "reload"
cbpf_opcode_name read = "read"
cbpf_opcode_name release = "release"
cbpf_opcode_name br_null = "br_null"
cbpf_opcode_name return = "return"
cbpf_opcode_name (other n) = "invalid"
