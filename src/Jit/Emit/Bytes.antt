-- ===== src/Jit/Emit/Bytes.antt =====
-- linux/ownership/cbpf_jit.c: the highest byte of each capability instruction that is emitted, by
-- evaluation over all registers.
use c_bpf.Base.{
  ℕ, zero, suc, ◌/◌, ◌^◌, ◌<◌, ◌≡◌, refl, Bool, true, ◌&&◌, arith, ◌==◌, Bool-cases, inl, inr,
}
use c_bpf.Jit.Emit.Templates.{cap_word, cap_mov, cap_str, cap_ldr, cap_blrs, cap_gctag}

abbrev pub below : ℕ → (ℕ → Bool) → Bool
below zero p = true
below (suc n) p = p n && below n p

pub below_sound : (n : ℕ) (p : ℕ → Bool) (x : ℕ) → below n p ≡ true → x < n → p x ≡ true
below_sound zero p x h lt = absurd (omega arith)
below_sound (suc n) p x h lt = elim (Bool-cases (x == n)) [
  | inl e ↦ let same : x ≡ n = ground arith in ground arith
  | inr e ↦ below_sound n p x (ground arith) (ground arith)
]

-- The highest byte of a capability instruction.
abbrev pub high_byte : ℕ → ℕ → Bool
high_byte byte w = w / 2 ^ 24 == byte

-- The instructions over `base` have the highest byte `byte`.
abbrev pub all_bytes : ℕ → ℕ → Bool
all_bytes byte base = below 32 (λ n. below 32 (λ d. high_byte byte (cap_word base n d)))

pub mov_bytes : all_bytes 0xc2 cap_mov ≡ true
unfolding cap_word
mov_bytes = refl

pub str_bytes : all_bytes 0x82 cap_str ≡ true
unfolding cap_word
str_bytes = refl

pub ldr_bytes : all_bytes 0x82 cap_ldr ≡ true
unfolding cap_word
ldr_bytes = refl

pub gctag_bytes : all_bytes 0xc2 cap_gctag ≡ true
unfolding cap_word
gctag_bytes = refl

pub blrs_bytes : all_bytes 0xc2 cap_blrs ≡ true
unfolding cap_word
blrs_bytes = refl
