-- ===== src/KfuncGuest.antt =====
-- linux/kfunc/guest.c: the builder of the guest's programs. The numbers of the three kfuncs, from
-- the generated header kfunc_ids.h, are an argument.
pub mod Programs
pub mod Session
pub mod Startup
use c_bpf.Base.{
  ℕ, zero, suc, ◌+◌, ◌-◌, Bool, true, false, not, ◌&&◌, ◌||◌, ltb, leb, ◌==◌, if◌then◌else◌, ℤ, pos,
  is, store,
}
use c_bpf.Jit.{Code, mov_x, mov_k, stx_dw, ldx_dw, jeq_k, call, exit, other, BpfInsn}

abbrev pub max_insns : ℕ
max_insns = 64

-- `INS(C, D, S, O, I)`.
abbrev pub ins : Code → ℕ → ℕ → ℤ → ℤ → BpfInsn
ins c d s o i = record { code = c; dst_reg = d; src_reg = s; off = o; imm = i }

pub record Program : Type 0 where
  pub insns : ℕ → BpfInsn
  pub count : ℕ
  pub invalid : Bool

-- `{ 0 }`.
abbrev pub empty : Program
empty = record { insns = λ _. ins (other 0) 0 0 (pos 0) (pos 0); count = 0; invalid = false }

-- The PC that `emit` returns, and the program.
unfoldable pub emit : Program → BpfInsn → ℕ × Program
emit p insn =
    if p.count == max_insns
    then (0, record p { invalid = true })
    else (p.count, record p { insns = store p.insns p.count insn; count = p.count + 1 })

unfoldable pub mov : Program → ℕ → ℕ → Program
unfolding emit
mov p dst src = (emit p (ins mov_x dst src (pos 0) (pos 0))).1

unfoldable pub imm : Program → ℕ → ℤ → Program
unfolding emit
imm p dst value = (emit p (ins mov_k dst 0 (pos 0) value)).1

-- With BPF_PSEUDO_KFUNC_CALL as the source register.
unfoldable pub call_id : Program → ℤ → Program
unfolding emit
call_id p id = (emit p (ins call 0 2 (pos 1) id)).1

unfoldable pub null_branch : Program → ℕ × Program
unfolding emit
null_branch p = emit p (ins jeq_k 0 0 (pos 0) (pos 0))

unfoldable pub forward_to : Program → ℕ → ℕ → Program
forward_to p branch target =
    if leb p.count branch
      || leb target branch
      || ltb p.count target
      || ltb 32767 (target - branch - 1)
    then record p { invalid = true }
    else record p {
      insns = store p.insns branch (record (p.insns branch) { off = pos (target - branch - 1) });
    }

unfoldable pub finish : Program → ℤ → Program
unfolding emit imm
finish p result = (emit (imm p 0 result) (ins exit 0 0 (pos 0) (pos 0))).1

unfoldable pub save_alias : Program → ℕ → ℤ → Program
unfolding emit mov
save_alias p a spill = if is spill 0 then mov p 8 a else (emit p (ins stx_dw 10 a spill (pos 0))).1

unfoldable pub alias_arg : Program → ℤ → Program
unfolding emit mov
alias_arg p spill = mov (if is spill 0 then p else (emit p (ins ldx_dw 8 10 spill (pos 0))).1) 1 8
