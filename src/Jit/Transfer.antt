-- ===== src/Jit/Transfer.antt =====
-- linux/ownership/cbpf_jit.c, `admit`: one instruction that the switch passes.
pub mod Agreement
mod Moves
mod Calls
mod Branches
use c_bpf.Base.{
  ℕ, zero, suc, ◌+◌, ◌≡◌, refl, sym, ap, ◌∙◌, true, false, not, ◌&&◌, ◌||◌, Option, none, some,
  ◌==◌, if◌then◌else◌, store, ℤ, pos, negsuc, arith, to_word, leb, ltb, Bool-cases, ◌⊎◌, inl, inr,
}
use mathlib.Core.Path.{subst}
use c_bpf.Jit.{
  Code, mov_x, mov_k, stx_dw, ldx_dw, jeq_k, call, exit, other, BpfInsn, Kind, Flow, nonempty,
  is_scalar, is_defined, is_handle, only_zero, only_scalar, handle_or_zero,
}
use c_bpf.Jit.Admit
use c_bpf.Jit.Admit.{
  Operation, no_operation, acquire, read, release, Linkage, call_operation, Transfer, refuse, pass,
  Passed, transfer, transfer_mov_x, transfer_mov_k, transfer_store, transfer_load, transfer_branch,
  branch_by, branch_to, forward, transfer_call, transfer_exit, clobber,
}
use c_bpf.Jit.Execution.{
  Value, garbage, number, token, State, Outcome, next, exits, stuck, Answer, moves, jumps, gates,
  leaves, execute, Allows, Covers, put, after_call, answers,
}
use c_bpf.Jit.Transfer.Agreement.{Follows, Agrees}
use c_bpf.Jit.Transfer.Moves.{mov_x-Agrees, mov_k-Agrees, store-Agrees, load-Agrees}
use c_bpf.Jit.Transfer.Calls.{exit-Agrees, call-Agrees}
use c_bpf.Jit.Transfer.Branches.{branch_by-Agrees}

-- Where the table describes the state, an instruction that passes runs without getting stuck, and
-- what it leads to is described by what the pass joins.
pub transfer-Agrees :
    (l : Linkage) (a : Answer) (code : Code) (i : BpfInsn) (pc len n : ℕ) (f : Flow) (s : State)
    → Covers f s
    → Agrees (transfer l code i pc len n f) pc (execute l a code i pc s)
unfolding transfer transfer_branch execute
transfer-Agrees l a mov_x i pc len n f s c = mov_x-Agrees i pc f s c
transfer-Agrees l a mov_k i pc len n f s c = mov_k-Agrees i pc f s c
transfer-Agrees l a stx_dw i pc len n f s c = store-Agrees i pc f s c
transfer-Agrees l a ldx_dw i pc len n f s c = load-Agrees i pc f s c
transfer-Agrees l a jeq_k i pc len n f s c = branch_by-Agrees (forward i.off) i pc len f s refl c
transfer-Agrees l a call i pc len n f s c = call-Agrees (call_operation l i) a pc n f s c
transfer-Agrees l a exit i pc len n f s c = exit-Agrees i pc f s c
transfer-Agrees l a (other k) i pc len n f s c = tt
