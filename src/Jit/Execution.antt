-- ===== src/Jit/Execution.antt =====
-- What an instruction that linux/ownership/cbpf_jit.c compiles does when it runs, with handles apart
-- from numbers: the independent meaning by which the admission pass is judged.
use c_bpf.Base.{
  ℕ, zero, suc, ◌+◌, ◌-◌, ◌≡◌, true, ◌&&◌, ◌||◌, Option, none, some, List, ◌==◌, if◌then◌else◌,
  get_elem?, store, ℤ, pos, negsuc, to_word, leb,
}
use c_bpf.Jit.{Code, mov_x, mov_k, stx_dw, ldx_dw, jeq_k, call, exit, other, BpfInsn, Kind, Flow}
use c_bpf.Jit.Admit.{Operation, acquire, read, release, Linkage, call_operation, is_slot}

-- A register or the spill slot: never written or lost in a call, a number, or a handle.
pub data Value : Type 0 where
  garbage : Value
  number : ℕ → Value
  token : ℕ → Value

pub record State : Type 0 where
  pub reg : ℕ → Value
  pub spill : Value

pub data Outcome : Type 0 where
  next : ℕ → State → Outcome
  exits : ℕ → Outcome
  -- A use of garbage, of a handle as a number or of a number as a handle, an access other than to
  -- the one slot, or a call that is no gate.
  stuck : Outcome

-- What the gates answer: ACQUIRE a handle or NULL, READ a number.
pub record Answer : Type 0 where
  pub acquired : Option ℕ
  pub value : ℕ

abbrev pub put : State → ℕ → Value → State
put s r v = record s { reg = store s.reg r v }

-- A copy of `v`, where it has been written.
unfoldable pub moves : Value → ℕ → State → Outcome
moves garbage pc s = stuck
moves (number n) pc s = next (pc + 1) s
moves (token i) pc s = next (pc + 1) s

-- The PC `pc + 1 + off`.
abbrev pub target : ℕ → ℤ → ℕ
target pc (pos d) = pc + 1 + d
target pc (negsuc d) = pc - d

unfoldable pub jumps : Value → BpfInsn → ℕ → State → Outcome
jumps garbage i pc s = stuck
jumps (number n) i pc s =
    if n == to_word 64 i.imm then next (target pc i.off) s else next (pc + 1) s
jumps (token a) i pc s = next (pc + 1) s

abbrev pub answers : Option ℕ → Value
answers none = number 0
answers (some a) = token a

-- Registers 1 to 5 do not survive a call.
abbrev pub after_call : State → Value → State
after_call s v = record s { reg = λ r. if leb 1 r && leb r 5 then garbage else store s.reg 0 v r }

unfoldable pub gates : Operation → Value → Answer → ℕ → State → Outcome
gates acquire (number n) a pc s = next (pc + 1) (after_call s (answers a.acquired))
gates read (token i) a pc s = next (pc + 1) (after_call s (number a.value))
gates release (token i) a pc s = next (pc + 1) (after_call s (number 0))
gates _ v a pc s = stuck

unfoldable pub leaves : Value → Outcome
leaves (number n) = exits n
leaves _ = stuck

unfoldable pub execute : Linkage → Answer → Code → BpfInsn → ℕ → State → Outcome
unfolding moves jumps gates leaves
execute l a mov_x i pc s = moves (s.reg i.src_reg) pc (put s i.dst_reg (s.reg i.src_reg))
execute l a mov_k i pc s = next (pc + 1) (put s i.dst_reg (number (to_word 64 i.imm)))
execute l a stx_dw i pc s =
    if i.dst_reg == 10 && is_slot i.off
    then moves (s.reg i.src_reg) pc (record s { spill = s.reg i.src_reg })
    else stuck
execute l a ldx_dw i pc s =
    if i.src_reg == 10 && is_slot i.off then moves s.spill pc (put s i.dst_reg s.spill) else stuck
execute l a jeq_k i pc s = jumps (s.reg i.dst_reg) i pc s
execute l a call i pc s = gates (call_operation l i) (s.reg 1) a pc s
execute l a exit i pc s = leaves (s.reg 0)
execute l a (other c) i pc s = stuck

-- The value is one that the bits of a kind allow.
abbrev pub Allows : Kind → Value → Type 0
Allows k garbage = k.uninit ≡ true
Allows k (number zero) = (k.zero || k.scalar) ≡ true
Allows k (number (suc n)) = k.scalar ≡ true
Allows k (token i) = k.handle ≡ true

-- A table entry describes a state.
pub record Covers (f : Flow) (s : State) : Type 0 where
  pub reached : f.reached ≡ true
  pub reg : (r : ℕ) → Allows (f.reg r) (s.reg r)
  pub spill : Allows f.spill s.spill

-- At entry every register and the slot have been cleared.
abbrev pub cleared : State
cleared = record { reg = λ _. garbage; spill = garbage }

-- The states that a run of the program comes to, whatever the gates answer.
pub data Reaches (l : Linkage) (p : List BpfInsn) : ℕ → State → Type 0 where
  here : Reaches l p 0 cleared
  there :
      {pc n : ℕ} {s s' : State} (i : BpfInsn) (a : Answer)
      → Reaches l p pc s
      → get_elem? p pc ≡ some i
      → execute l a i.code i pc s ≡ next n s'
      → Reaches l p n s'
