-- ===== src/Native.antt =====
-- A program that linux/ownership/cbpf_jit.c compiles, on the gates of cbpf_runtime.c: the
-- instructions as Jit/Execution tells, each call through `cbpf_gateway` to `cbpf_gate_impl`.
pub mod Flags
pub mod Calls
pub mod Whole
use c_bpf.Base.{
  ℕ, zero, suc, Bool, true, false, Option, none, some, List, [], ◌∷◌, ◌==◌, if◌then◌else◌,
  get_elem?,
}
use c_bpf.Jit.{Code, mov_x, mov_k, stx_dw, ldx_dw, jeq_k, call, exit, other, BpfInsn}
use c_bpf.Jit.Admit.{Linkage, call_operation}
use c_bpf.Jit.Emit.Templates.{op_number}
use c_bpf.Jit.Execution.{
  Value, garbage, number, token, State, Outcome, next, exits, stuck, Answer, execute, cleared,
}
use c_bpf.Runtime.{Kernel, Cap, Machine, gate, u64_max}
use c_bpf.Runtime.Invoke.{Call}

abbrev pub is_gate_call : Code → Bool
is_gate_call call = true
is_gate_call _ = false

module _ (k : Kernel) where
  -- What a register holds: token `i` is the view of cell `i`.
  abbrev pub capability : Value → Machine k → Cap k
  capability garbage m = k.null
  capability (number n) m = k.integer n
  capability (token i) m = m.s.views i

  -- What the gateway receives from the `call` template: the argument, the operation and the PC.
  abbrev pub call_of : Linkage → BpfInsn → ℕ → State → Machine k → Call k
  call_of l i pc s m = record {
    argument = capability (s.reg 1) m;
    operation = op_number (call_operation l i);
    pc = pc;
  }

  -- What a gate's answer leaves in register 0: a tagged one is the view of the cell just issued.
  abbrev pub answer_of : Cap k → Machine k → Answer
  answer_of c m = record {
    acquired = if k.tag_get c then some m.s.acquired else none;
    value = k.address_get c;
  }

  -- An exit with a number; a gate's failure, on which the gateway leaves the program; or an
  -- instruction that is stuck, a PC outside the program or no fuel.
  pub data Ending : Type 0 where
    ended : ℕ → Machine k → Ending
    aborted : Machine k → Ending
    broken : Ending

  -- The calls that a run makes, in turn, and how it ends.
  abbrev pub Run : Type 0
  Run = List (Call k) × Ending

  -- The run behind an instruction.
  abbrev pub proceed : (ℕ → State → Machine k → Run) → Outcome → Machine k → Run
  proceed go (next n s) m = go n s m
  proceed go (exits v) m = ([], ended v m)
  proceed go stuck m = ([], broken)

  -- A call, and the gateway's test of the answer.
  unfoldable pub through_gate :
      (ℕ → State → Machine k → Run) → Linkage → BpfInsn → ℕ → State → Machine k → Run
  unfolding execute gate
  through_gate go l i pc s m =
      let c = call_of l i pc s m in
      let r = gate k c.argument c.operation c.pc m in
      let rest = proceed go (execute l (answer_of r.1 m) i.code i pc s) r.0 in
      if k.address_get r.1 == u64_max then (c ∷ [], aborted r.0) else (c ∷ rest.0, rest.1)

  unfoldable pub turn :
      (ℕ → State → Machine k → Run) → Linkage → BpfInsn → ℕ → State → Machine k → Run
  unfolding execute through_gate
  turn go l i pc s m =
      if is_gate_call i.code
      then through_gate go l i pc s m
      else proceed go (execute l (record { acquired = none; value = 0 }) i.code i pc s) m

  -- At most `f` instructions from `pc`.
  unfoldable pub native_run : ℕ → Linkage → List BpfInsn → ℕ → State → Machine k → Run
  unfolding turn
  native_run zero l p pc s m = ([], broken)
  native_run (suc f) l p pc s m = elim (get_elem? p pc) [
    | none ↦ ([], broken)
    | some i ↦ turn (native_run f l p) l i pc s m
  ]
