-- ===== src/Jit/Emit/Encodable/Words.antt =====
-- linux/ownership/cbpf_jit.c: what is asked of the encoders, and single words.
use c_bpf.Base.{
  ℕ, zero, suc, ◌+◌, ◌-◌, ◌*◌, ◌/◌, ◌%◌, ◌^◌, ◌≤◌, ◌<◌, ◌≡◌, ◌≢◌, refl, ap, ◌∙◌, Bool, true, false,
  List, [], ◌∷◌, ◌++◌, arith, ◌==◌, leb, ℤ, pos, negsuc, Bool-cases, eq_of_==, inl, inr,
}
use c_bpf.Jit.Admit.{Operation, no_operation, acquire, read, release}
use c_bpf.Jit.Emit.{cbpf_max_words, Stmt, put, note, reject}
use c_bpf.Jit.Emit.Bytes.{below_sound, below, high_byte, all_bytes}
use c_bpf.Jit.Emit.Passes.{Encodes}
use c_bpf.Jit.Emit.Templates.{
  Encoder, immediate, kept_register, clear_from, clear_registers, fixed, cap_word, native_reg,
  distance, times_four, op_number,
}

-- A distance of at most `n` either way.
abbrev pub Within : ℕ → ℤ → Type 0
Within n (pos k) = k ≤ n
Within n (negsuc k) = k < n

-- What the encoders do for operands in the ranges of their fields: they give an instruction, and not
-- AARCH64_BREAK_FAULT, which is a BRK, an instruction with 0xd4 in its highest byte. A move shifts by a
-- multiple of 16 below 64, and the offset of a 64-bit store is a multiple of 8.
pub record IsEncoder (e : Encoder) : Type 0 where
  pub brk : e.fault / 2 ^ 24 ≡ 0xd4
  pub fp : e.fp < 32
  pub lr : e.lr < 32
  pub sp : e.sp < 32
  pub zr : e.zr < 32
  pub bti_jc : e.bti_jc ≢ e.fault
  pub nop : e.nop ≢ e.fault
  pub paciasp : e.paciasp ≢ e.fault
  pub autiasp : e.autiasp ≢ e.fault
  pub mov : (d n : ℕ) → d < 32 → n < 32 → e.mov d n ≢ e.fault
  pub push : (a b s : ℕ) → a < 32 → b < 32 → s < 32 → e.push a b s ≢ e.fault
  pub pop : (a b s : ℕ) → a < 32 → b < 32 → s < 32 → e.pop a b s ≢ e.fault
  pub add_i : (d n v : ℕ) → d < 32 → n < 32 → v < 2 ^ 12 → e.add_i d n v ≢ e.fault
  pub sub_i : (d n v : ℕ) → d < 32 → n < 32 → v < 2 ^ 12 → e.sub_i d n v ≢ e.fault
  pub movz : (d v s : ℕ) → d < 32 → v < 2 ^ 16 → s < 64 → s % 16 ≡ 0 → e.movz d v s ≢ e.fault
  pub movk : (d v s : ℕ) → d < 32 → v < 2 ^ 16 → s < 64 → s % 16 ≡ 0 → e.movk d v s ≢ e.fault
  pub str64i : (t n v : ℕ) → t < 32 → n < 32 → v < 2 ^ 15 → v % 8 ≡ 0 → e.str64i t n v ≢ e.fault
  pub adr : (d : ℕ) (v : ℤ) → d < 32 → Within (2 ^ 20 - 1) v → e.adr d v ≢ e.fault
  pub cbz : (t : ℕ) (v : ℤ) → t < 32 → Within (2 ^ 18 - 1) v → e.cbz t v ≢ e.fault
  pub b : (v : ℤ) → Within (2 ^ 25 - 1) v → e.b v ≢ e.fault
  pub blr : (n : ℕ) → n < 32 → e.blr n ≢ e.fault
  pub ret : (n : ℕ) → n < 32 → e.ret n ≢ e.fault

pub within : (a b n : ℕ) → a ≤ n → b ≤ n → Within n (distance a b)
within a b n p q = elim (Bool-cases (leb b a)) [
  | inl e ↦ rw e (omega (arith, p))
  | inr e ↦ rw e (ground arith)
]

pub Within-mono : (n m : ℕ) (v : ℤ) → n ≤ m → Within n v → Within m v
Within-mono n m (pos k) le h = omega (arith, h)
Within-mono n m (negsuc k) le h = omega (arith, h)

pub Within-times_four : (n m : ℕ) (v : ℤ) → 4 * n + 3 ≤ m → Within n v → Within m (times_four v)
Within-times_four n m (pos k) le h = omega (arith, h, le)
Within-times_four n m (negsuc k) le h = omega (arith, h, le)

pub native_reg-lt : (r : ℕ) → native_reg r < 32
native_reg-lt r = ground arith

pub op_number-lt : (op : Operation) → op_number op < 2 ^ 16
op_number-lt no_operation = omega arith
op_number-lt acquire = omega arith
op_number-lt read = omega arith
op_number-lt release = omega arith

pub Encodes-append :
    (fault n : ℕ) (xs ys : List Stmt)
    → Encodes fault n xs
    → Encodes fault n ys
    → Encodes fault n (xs ++ ys)
Encodes-append fault n [] ys h k = k
Encodes-append fault n (put f ∷ xs) ys h k = (h.0, Encodes-append fault n xs ys h.1 k)
Encodes-append fault n (note p ∷ xs) ys h k = Encodes-append fault n xs ys h k
Encodes-append fault n (reject ∷ xs) ys h k = absurd h

module _ (e : Encoder) (v : IsEncoder e) where
  pub constant : (w : ℕ) → (w / 2 ^ 24 == 0xd4) ≡ false → w ≢ e.fault
  constant w h q =
      let same : w / 2 ^ 24 ≡ 0xd4 = ap (λ (x : ℕ). x / 2 ^ 24) q ∙ v.brk in
      let bad : (w / 2 ^ 24 == 0xd4) ≡ true = rw same refl in cc (h, bad)

  pub cap_encodes :
      (byte base n d : ℕ)
      → (byte == 0xd4) ≡ false
      → all_bytes byte base ≡ true
      → n < 32
      → d < 32
      → cap_word base n d ≢ e.fault
  cap_encodes byte base n d apart table ln ld =
      let row =
        below_sound 32 (λ n. below 32 (λ d. high_byte byte (cap_word base n d))) n table ln in
      let one = below_sound 32 (λ d. high_byte byte (cap_word base n d)) d row ld in
      let same : cap_word base n d / 2 ^ 24 ≡ byte = eq_of_== _ _ one in
      constant (cap_word base n d) (rw same apart)

  -- A fixed word other than the fault.
  pub fixed-Encodes : (w : ℕ) → w ≢ e.fault → Encodes e.fault cbpf_max_words (fixed w ∷ [])
  fixed-Encodes w h = ((λ l i f le. h), tt)

  pub immediate-Encodes :
      (reg value : ℕ) → reg < 32 → Encodes e.fault cbpf_max_words (immediate e reg value)
  immediate-Encodes reg value lt = (
    λ l i f le. v.movz reg _ 0 lt (omega arith) (omega arith) refl,
    (
      λ l i f le. v.movk reg _ 16 lt (omega arith) (omega arith) refl,
      (
        λ l i f le. v.movk reg _ 32 lt (omega arith) (omega arith) refl,
        (λ l i f le. v.movk reg _ 48 lt (omega arith) (omega arith) refl, tt),
      ),
    ),
  )

  clear-Encodes :
      (kept : ℕ → Bool) (n reg : ℕ)
      → reg + n ≤ 32
      → Encodes e.fault cbpf_max_words (clear_from e kept n reg)
  unfolding clear_from
  clear-Encodes kept zero reg h = tt
  clear-Encodes kept (suc n) reg h = elim (Bool-cases (kept reg)) [
    | inl b ↦ rw b (clear-Encodes kept n (reg + 1) (omega (arith, h)))
    | inr b ↦ rw b (
      (λ l i f le. v.movz reg 0 0 (omega (arith, h)) (omega arith) (omega arith) refl),
      clear-Encodes kept n (reg + 1) (omega (arith, h)),
    )
  ]

  pub clear_registers-Encodes :
      (entering : Bool) → Encodes e.fault cbpf_max_words (clear_registers e entering)
  unfolding clear_registers
  clear_registers-Encodes entering = clear-Encodes (kept_register e entering) 30 0 (omega arith)
