-- ===== src/Runtime/Gateway.antt =====
-- linux/ownership/cbpf_runtime.c, `cbpf_gateway`: the assembly between a restricted program and
-- `cbpf_gate_impl`, on a core with capability registers, a stack pointer and memory in halves of a
-- capability. The C function, which the compiler turns into code, is an argument.
pub mod Frame
pub mod Scrub
use c_bpf.Base.{
  ℕ, zero, suc, ◌+◌, ◌-◌, ◌%◌, ◌^◌, ◌≤◌, ◌<◌, ◌≡◌, Bool, true, false, Option, none, some, List, [],
  ◌∷◌, ◌++◌, ◌==◌, if◌then◌else◌, store,
}
use c_bpf.Cheri.{Cheri}

-- The instructions that the gateway uses. `r`, `d` and `s` number a register, `o` is an offset from
-- the stack pointer, and the `x` forms take the low 64 bits of a register.
pub data Asm : Type 0 where
  bti_c bl_cbpf_gate_impl : Asm
  mov_x_sp mov_sp_x sub_sp add_sp mov_xzr retr_c : ℕ → Asm
  str_x str_c ldr_x ldr_c mov_x mov_c cmn_x : ℕ → ℕ → Asm
  -- To the instruction behind the next `n`.
  b_ne : ℕ → Asm

-- The text of the gateway.
abbrev pub save : List Asm
save =
    bti_c
    ∷ mov_x_sp 12
    ∷ mov_sp_x 15
    ∷ sub_sp 128
    ∷ str_x 15 0
    ∷ str_x 12 8
    ∷ str_c 13 16
    ∷ str_c 17 32
    ∷ str_c 19 48
    ∷ str_c 20 64
    ∷ str_c 21 80
    ∷ str_c 22 96
    ∷ str_c 30 112
    ∷ []

abbrev pub enter : List Asm
enter = mov_x 1 4 ∷ mov_x 2 5 ∷ bl_cbpf_gate_impl ∷ []

abbrev pub restore : List Asm
restore =
    ldr_x 15 0
    ∷ ldr_x 12 8
    ∷ ldr_c 13 16
    ∷ ldr_c 17 32
    ∷ ldr_c 19 48
    ∷ ldr_c 20 64
    ∷ ldr_c 21 80
    ∷ ldr_c 22 96
    ∷ ldr_c 14 112
    ∷ add_sp 128
    ∷ mov_sp_x 12
    ∷ []

-- A failure takes the fixed epilogue in place of the continuation.
abbrev pub test : List Asm
test = cmn_x 0 1 ∷ b_ne 3 ∷ mov_c 14 13 ∷ mov_xzr 0 ∷ mov_xzr 7 ∷ []

abbrev pub scrub : List Asm
scrub =
    mov_c 30 13
    ∷ mov_xzr 1
    ∷ mov_xzr 2
    ∷ mov_xzr 3
    ∷ mov_xzr 4
    ∷ mov_xzr 5
    ∷ mov_xzr 6
    ∷ mov_xzr 7
    ∷ mov_xzr 8
    ∷ mov_xzr 9
    ∷ mov_xzr 10
    ∷ mov_xzr 11
    ∷ mov_xzr 12
    ∷ mov_xzr 13
    ∷ mov_xzr 16
    ∷ mov_xzr 18
    ∷ mov_xzr 23
    ∷ mov_xzr 24
    ∷ mov_xzr 25
    ∷ mov_xzr 26
    ∷ mov_xzr 27
    ∷ mov_xzr 28
    ∷ mov_xzr 29
    ∷ retr_c 14
    ∷ []

abbrev pub cbpf_gateway : List Asm
cbpf_gateway = save ++ (enter ++ (restore ++ (test ++ scrub)))

module _ (c : Cheri) where
  -- Eight bytes of memory: a number, or half of a capability.
  pub data Half : Type 0 where
    word : ℕ → Half
    low high : c.Cap → Half

  pub record Core : Type 0 where
    pub reg : ℕ → c.Cap
    pub sp : ℕ
    pub mem : ℕ → Half
    pub zero_flag : Bool

  abbrev pub x : Core → ℕ → ℕ
  x s r = c.address_get (s.reg r)

  -- A write of the low half of a register leaves an untagged number.
  abbrev pub set_x : ℕ → ℕ → Core → Core
  set_x d n s = record s { reg = store s.reg d (c.integer n) }

  abbrev pub set_c : ℕ → c.Cap → Core → Core
  set_c d v s = record s { reg = store s.reg d v }

  abbrev pub add64 : ℕ → ℕ → ℕ
  add64 a b = (a + b) % 2 ^ 64

  abbrev pub store_c : ℕ → c.Cap → Core → Core
  store_c a v s = record s { mem = store (store s.mem a (low v)) (a + 8) (high v) }

  -- A number, or the address in a capability.
  abbrev pub load_x : Half → Option ℕ
  load_x (word n) = some n
  load_x (low v) = some (c.address_get v)
  load_x (high v) = none

  -- Both halves of one capability.
  abbrev pub load_c : Half → Half → Option c.Cap
  load_c (low v) (high w) = if c.is_equal_exact v w then some v else none
  load_c _ _ = none

  abbrev pub with_loaded {ℓ} : {A : Type ℓ} → (A → Core) → Option A → Option Core
  with_loaded f (some a) = some (f a)
  with_loaded f none = none

  -- An instruction that goes on to the next. A capability is loaded and stored where it is aligned, and `none`
  -- is a fault or a value that the model does not know.
  unfoldable pub step : (Core → Core) → Asm → Core → Option Core
  step impl bti_c s = some s
  step impl bl_cbpf_gate_impl s = some (impl s)
  step impl (mov_x_sp d) s = some (set_x d s.sp s)
  step impl (mov_sp_x r) s = some (record s { sp = x s r })
  step impl (sub_sp n) s = some (record s { sp = add64 s.sp (2 ^ 64 - n) })
  step impl (add_sp n) s = some (record s { sp = add64 s.sp n })
  step impl (mov_xzr d) s = some (set_x d 0 s)
  step impl (str_x r o) s = some (record s { mem = store s.mem (add64 s.sp o) (word (x s r)) })
  step impl (str_c r o) s =
      if add64 s.sp o % 16 == 0 then some (store_c (add64 s.sp o) (s.reg r) s) else none
  step impl (ldr_x d o) s = with_loaded (λ n. set_x d n s) (load_x (s.mem (add64 s.sp o)))
  step impl (ldr_c d o) s =
      if add64 s.sp o % 16 == 0
      then with_loaded (λ v. set_c d v s) (load_c (s.mem (add64 s.sp o)) (s.mem (add64 s.sp o + 8)))
      else none
  step impl (mov_x d r) s = some (set_x d (x s r) s)
  step impl (mov_c d r) s = some (set_c d (s.reg r) s)
  step impl (cmn_x r n) s = some (record s { zero_flag = add64 (x s r) n == 0 })
  step impl (b_ne n) s = none
  step impl (retr_c r) s = none

  abbrev pub on_some {ℓ} : {A : Type ℓ} → (Core → Option A) → Option Core → Option A
  on_some f (some s) = f s
  on_some f none = none

  -- The instructions from the one behind the next `n`, up to a return, and where it goes.
  unfoldable pub exec : (Core → Core) → ℕ → List Asm → Core → Option (Core × c.Cap)
  unfolding step
  exec impl n [] s = none
  exec impl (suc n) (i ∷ is) s = exec impl n is s
  exec impl zero (retr_c r ∷ is) s = some (s, s.reg r)
  exec impl zero (b_ne n ∷ is) s = exec impl (if s.zero_flag then 0 else n) is s
  exec impl zero (i ∷ is) s = on_some (exec impl zero is) (step impl i s)

  -- What the procedure call standard says of `cbpf_gate_impl`: it leaves its caller's stack pointer
  -- and frame alone. It returns a 64-bit address; no other register is relied on.
  pub record KeepsFrame (impl : Core → Core) : Type 0 where
    pub sp : (t : Core) → (impl t).sp ≡ t.sp
    pub frame : (t : Core) (a : ℕ) → t.sp ≤ a → a < t.sp + 128 → (impl t).mem a ≡ t.mem a
    pub answer : (t : Core) → x (impl t) 0 < 2 ^ 64
