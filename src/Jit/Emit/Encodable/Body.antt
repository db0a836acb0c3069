-- ===== src/Jit/Emit/Encodable/Body.antt =====
-- linux/ownership/cbpf_jit.c: the words of the body.
use c_bpf.Base.{
  ℕ, suc, ◌+◌, ◌-◌, ◌^◌, ◌≤◌, ◌<◌, ◌≡◌, ◌≢◌, refl, List, [], ◌∷◌, some, arith, length, get_elem?,
}
use c_bpf.Jit.{Code, mov_x, mov_k, stx_dw, ldx_dw, jeq_k, call, exit, other, BpfInsn}
use c_bpf.Jit.Admit.{Operation}
use c_bpf.Jit.Emit.{cbpf_max_words}
use c_bpf.Jit.Emit.Bytes.{mov_bytes, str_bytes, ldr_bytes, blrs_bytes}
use c_bpf.Jit.Emit.Passes.{Encodes}
use c_bpf.Jit.Emit.Templates.{Encoder, template, body, cap_mov, cap_str, cap_ldr, cap_blrs}
use c_bpf.Jit.Emit.Encodable.Words.{
  IsEncoder, within, Within-mono, native_reg-lt, op_number-lt, Encodes-append, cap_encodes,
  fixed-Encodes, immediate-Encodes,
}

module _ (e : Encoder) (v : IsEncoder e) where
  -- The operands of an admitted instruction: the compiler knows its code.
  template-Encodes :
      (op : Operation) (c : Code) (i : BpfInsn) (pc : ℕ)
      → ((n : ℕ) → c ≢ other n)
      → pc < 64
      → Encodes e.fault cbpf_max_words (template e op c i pc)
  unfolding template
  template-Encodes op mov_x i pc h lt = fixed-Encodes e v _ (
      cap_encodes e v 0xc2 cap_mov _ _ refl mov_bytes (native_reg-lt i.src_reg)
        (native_reg-lt i.dst_reg))
  template-Encodes op mov_k i pc h lt = immediate-Encodes e v _ _ (native_reg-lt i.dst_reg)
  template-Encodes op stx_dw i pc h lt =
      fixed-Encodes e v _
        (cap_encodes e v 0x82 cap_str 31 _ refl str_bytes (omega arith) (native_reg-lt i.src_reg))
  template-Encodes op ldx_dw i pc h lt =
      fixed-Encodes e v _
        (cap_encodes e v 0x82 cap_ldr 31 _ refl ldr_bytes (omega arith) (native_reg-lt i.dst_reg))
  template-Encodes op jeq_k i pc h lt = (
    (λ l n f le.
        v.cbz _ _ (native_reg-lt i.dst_reg)
          (Within-mono 1024 (2 ^ 18 - 1) _ (omega arith) (within _ n 1024 (f.offset _) le))),
    tt,
  )
  template-Encodes op call i pc h lt = (
    λ l n f le. v.movz 4 _ 0 (omega arith) (op_number-lt op) (omega arith) refl,
    (
      λ l n f le. v.movz 5 pc 0 (omega arith) (omega (arith, lt)) (omega arith) refl,
      (
        λ l n f le. cap_encodes e v 0xc2 cap_mov 30 13 refl mov_bytes (omega arith) (omega arith),
        (
          λ l n f le.
              cap_encodes e v 0xc2 cap_blrs 17 0 refl blrs_bytes (omega arith) (omega arith),
          (
            λ l n f le. cap_encodes e v 0xc2 cap_mov 0 7 refl mov_bytes (omega arith) (omega arith),
            tt,
          ),
        ),
      ),
    ),
  )
  template-Encodes op exit i pc h lt = (
    (λ l n f le.
        v.b _
          (Within-mono 1024 (2 ^ 25 - 1) _ (omega arith) (within _ n 1024 f.restricted_exit le))),
    tt,
  )
  template-Encodes op (other n) i pc h lt = absurd (h n refl)

  pub body-Encodes :
      (ops : ℕ → Operation) (is : List BpfInsn) (pc : ℕ)
      → ((j : ℕ) (i : BpfInsn) (n : ℕ) → get_elem? is j ≡ some i → i.code ≢ other n)
      → pc + length is ≤ 64
      → Encodes e.fault cbpf_max_words (body e ops is pc)
  unfolding body
  body-Encodes ops [] pc h le = tt
  body-Encodes ops (i ∷ is) pc h le =
      Encodes-append e.fault cbpf_max_words (template e (ops pc) i.code i pc)
        (body e ops is (pc + 1))
        (template-Encodes (ops pc) i.code i pc (λ n. h 0 i n refl) (omega (arith, le)))
        (body-Encodes ops is (pc + 1) (λ j. h (suc j)) (omega (arith, le)))
