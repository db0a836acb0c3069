-- ===== src/Jit/Emit/Templates.antt =====
-- linux/ownership/cbpf_jit.c, `immediate` to `generate`: what each part of the code emits. The
-- encoders of arch/arm64/net/bpf_jit.h, which is not in the repository, are an argument.
use Prim.Native.Nat.{bit_or}
use c_bpf.Base.{
  ℕ, zero, suc, ◌+◌, ◌-◌, ◌*◌, ◌/◌, ◌%◌, ◌^◌, Bool, true, false, ◌||◌, none, some, List, [], ◌∷◌,
  ◌++◌, ◌==◌, leb, if◌then◌else◌, get_elem?, ℤ, pos, negsuc, to_word,
}
use c_bpf.Jit.{Code, mov_x, mov_k, stx_dw, ldx_dw, jeq_k, call, exit, other, BpfInsn}
use c_bpf.Jit.Admit.{Operation, no_operation, acquire, read, release}
use c_bpf.Jit.Emit.{at_pc, restricted, executive, sized, Stmt, put, note, reject}

-- The A64_ macros, for 64-bit operands, the numbers of four registers, and AARCH64_BREAK_FAULT.
pub record Encoder : Type 0 where
  pub fault : ℕ
  pub fp : ℕ
  pub lr : ℕ
  pub sp : ℕ
  pub zr : ℕ
  pub bti_jc : ℕ
  pub nop : ℕ
  pub paciasp : ℕ
  pub autiasp : ℕ
  pub mov : ℕ → ℕ → ℕ
  pub push : ℕ → ℕ → ℕ → ℕ
  pub pop : ℕ → ℕ → ℕ → ℕ
  pub add_i : ℕ → ℕ → ℕ → ℕ
  pub sub_i : ℕ → ℕ → ℕ → ℕ
  pub movz : ℕ → ℕ → ℕ → ℕ
  pub movk : ℕ → ℕ → ℕ → ℕ
  pub str64i : ℕ → ℕ → ℕ → ℕ
  pub adr : ℕ → ℤ → ℕ
  pub cbz : ℕ → ℤ → ℕ
  pub b : ℤ → ℕ
  pub blr : ℕ → ℕ
  pub ret : ℕ → ℕ

-- The kernel's configuration, and the addresses of the program and of `cbpf_enter`.
pub record Config : Type 0 where
  pub bti : Bool
  pub ptr_auth : Bool
  pub prog_address : ℕ
  pub enter_address : ℕ

abbrev pub cap_mov : ℕ
cap_mov = 0xc2c1d000

abbrev pub cap_str : ℕ
cap_str = 0x82400000

abbrev pub cap_ldr : ℕ
cap_ldr = 0x82600000

abbrev pub cap_blrs : ℕ
cap_blrs = 0xc2c23002

abbrev pub cap_ret_clr : ℕ
cap_ret_clr = 0xc2c253c0

abbrev pub cap_ldr_c16_sp : ℕ
cap_ldr_c16_sp = 0xc24003f0

abbrev pub cap_retr_c16 : ℕ
cap_retr_c16 = 0xc2c25203

abbrev pub cap_gctag : ℕ
cap_gctag = 0xc2c09000

-- `base | (n << 5) | d`.
unfoldable pub cap_word : ℕ → ℕ → ℕ → ℕ
cap_word base n d = bit_or (bit_or base (n * 32)) d

-- `native_reg`; a register that the table does not have is never asked for.
abbrev pub native_reg : ℕ → ℕ
native_reg n = elim (get_elem? {A = ℕ} (7 ∷ 0 ∷ 1 ∷ 2 ∷ 3 ∷ 4 ∷ 19 ∷ 20 ∷ 21 ∷ 22 ∷ []) n) [
  | none ↦ 0
  | some r ↦ r
]

-- `(s32)a - (s32)b`, and four times a distance.
abbrev pub distance : ℕ → ℕ → ℤ
distance a b = if leb b a then pos (a - b) else negsuc (b - a - 1)

abbrev pub times_four : ℤ → ℤ
times_four (pos n) = pos (4 * n)
times_four (negsuc n) = negsuc (4 * n + 3)

abbrev pub op_number : Operation → ℕ
op_number no_operation = 0
op_number acquire = 1
op_number read = 2
op_number release = 3

abbrev pub fixed : ℕ → Stmt
fixed w = put (λ _ _. w)

abbrev pub when_set : Bool → Stmt → List Stmt → List Stmt
when_set b s rest = if b then s ∷ rest else rest

module _ (e : Encoder) where
  abbrev pub immediate : ℕ → ℕ → List Stmt
  immediate reg value =
      fixed (e.movz reg (value % 2 ^ 16) 0)
      ∷ fixed (e.movk reg (value / 2 ^ 16 % 2 ^ 16) 16)
      ∷ fixed (e.movk reg (value / 2 ^ 32 % 2 ^ 16) 32)
      ∷ fixed (e.movk reg (value / 2 ^ 48 % 2 ^ 16) 48)
      ∷ []

  -- The registers that `clear_registers` passes over.
  abbrev pub kept_register : Bool → ℕ → Bool
  kept_register entering reg = if entering then reg == 15 || reg == 17 else reg == 7

  -- `n` rounds from `reg`.
  unfoldable pub clear_from : (ℕ → Bool) → ℕ → ℕ → List Stmt
  clear_from kept zero reg = []
  clear_from kept (suc n) reg =
      let rest = clear_from kept n (reg + 1) in
      if kept reg then rest else fixed (e.movz reg 0 0) ∷ rest

  unfoldable pub clear_registers : Bool → List Stmt
  unfolding clear_from
  clear_registers entering = clear_from (kept_register entering) 30 0

  -- The frame, and the first arguments of `cbpf_enter`.
  unfoldable pub saves : List Stmt
  saves =
      fixed (e.push e.fp e.lr e.sp)
      ∷ fixed (e.mov e.fp e.sp)
      ∷ fixed (e.push 19 20 e.sp)
      ∷ fixed (e.push 21 22 e.sp)
      ∷ fixed (e.push 23 24 e.sp)
      ∷ fixed (e.push 25 26 e.sp)
      ∷ fixed (e.push 27 28 e.sp)
      ∷ fixed (e.push e.zr e.zr e.sp)
      ∷ fixed (e.sub_i e.sp e.sp 16)
      ∷ fixed (e.mov 0 e.sp)
      ∷ fixed (e.movz 1 16 0)
      ∷ put (λ l i. e.adr 2 (times_four (distance l.executive_exit i)))
      ∷ put (λ l _. e.movz 3 (l.executive_words * 4) 0)
      ∷ fixed (e.mov 4 9)
      ∷ []

  -- The call of `cbpf_enter`, and what follows it.
  unfoldable pub entry : List Stmt
  unfolding clear_registers
  entry =
      fixed (e.blr 10)
      ∷ fixed (e.cbz 0 (pos 3))
      ∷ fixed (e.movz 7 0 0)
      ∷ put (λ l i. e.b (distance l.executive_exit i))
      ∷ clear_registers true

  unfoldable pub prologue : Config → List Stmt
  unfolding saves entry
  prologue k =
      when_set k.bti (fixed e.bti_jc) []
      ++ (fixed (e.mov 9 e.lr)
          ∷ fixed e.nop
          ∷ (when_set k.ptr_auth (fixed e.paciasp) []
              ++ (saves
                  ++ (immediate 5 k.prog_address ++ (immediate 10 k.enter_address ++ entry)))))

  -- The PC `pc + 1 + off`, of a branch that goes forward.
  abbrev pub branch_pc : ℕ → ℤ → ℕ
  branch_pc pc (pos d) = pc + 1 + d
  branch_pc pc (negsuc d) = pc - d

  -- The switch of `body`.
  unfoldable pub template : Operation → Code → BpfInsn → ℕ → List Stmt
  unfolding cap_word
  template op mov_x i pc =
      fixed (cap_word cap_mov (native_reg i.src_reg) (native_reg i.dst_reg)) ∷ []
  template op mov_k i pc = immediate (native_reg i.dst_reg) (to_word 64 i.imm)
  template op stx_dw i pc = fixed (cap_word cap_str 31 (native_reg i.src_reg)) ∷ []
  template op ldx_dw i pc = fixed (cap_word cap_ldr 31 (native_reg i.dst_reg)) ∷ []
  template op jeq_k i pc =
      put (λ l n. e.cbz (native_reg i.dst_reg) (distance (l.offset (branch_pc pc i.off)) n)) ∷ []
  template op call i pc =
      fixed (e.movz 4 (op_number op) 0)
      ∷ fixed (e.movz 5 pc 0)
      ∷ fixed (cap_word cap_mov 30 13)
      ∷ fixed (cap_word cap_blrs 17 0)
      ∷ fixed (cap_word cap_mov 0 7)
      ∷ []
  template op exit i pc = put (λ l n. e.b (distance l.restricted_exit n)) ∷ []
  template op (other c) i pc = reject ∷ []

  -- The loop over the rest of the program, from `pc`, and the note behind it.
  unfoldable pub body : (ℕ → Operation) → List BpfInsn → ℕ → List Stmt
  unfolding template
  body ops [] pc = note (at_pc pc) ∷ []
  body ops (i ∷ is) pc = note (at_pc pc) ∷ (template (ops pc) i.code i pc ++ body ops is (pc + 1))

  -- The exit of the restricted program, and the scrub that every way out shares.
  unfoldable pub scrub : List Stmt
  unfolding clear_registers
  scrub =
      note restricted
      ∷ fixed cap_ret_clr
      ∷ note executive
      ∷ fixed (e.str64i e.zr e.sp 0)
      ∷ fixed (e.str64i e.zr e.sp 8)
      ∷ fixed (e.mov 7 7)
      ∷ clear_registers false

  unfoldable pub restores : List Stmt
  restores =
      fixed (e.add_i e.sp e.sp 16)
      ∷ fixed cap_ldr_c16_sp
      ∷ fixed (e.add_i e.sp e.sp 16)
      ∷ fixed (e.pop 27 28 e.sp)
      ∷ fixed (e.pop 25 26 e.sp)
      ∷ fixed (e.pop 23 24 e.sp)
      ∷ fixed (e.pop 21 22 e.sp)
      ∷ fixed (e.pop 19 20 e.sp)
      ∷ fixed (e.pop e.fp e.lr e.sp)
      ∷ fixed (e.mov 0 7)
      ∷ []

  unfoldable pub leave : List Stmt
  unfolding cap_word
  leave =
      fixed (cap_word cap_gctag 16 10)
      ∷ fixed (e.cbz 10 (pos 2))
      ∷ fixed cap_retr_c16
      ∷ fixed (e.ret e.lr)
      ∷ note sized
      ∷ []

  unfoldable pub epilogue : Config → List Stmt
  unfolding scrub restores leave
  epilogue k = scrub ++ (restores ++ (when_set k.ptr_auth (fixed e.autiasp) [] ++ leave))

  -- What `generate` performs, in order.
  unfoldable pub statements : Config → (ℕ → Operation) → List BpfInsn → List Stmt
  statements k ops p = prologue k ++ (body ops p 0 ++ epilogue k)
