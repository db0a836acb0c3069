-- ===== src/Jit/Emit/Encodable.antt =====
-- linux/ownership/cbpf_jit.c: every word that is emitted for an admitted program has an encoding.
pub mod Words
mod Body
mod Frame
use c_bpf.Base.{
  ℕ, zero, suc, ◌+◌, ◌-◌, ◌*◌, ◌/◌, ◌^◌, ◌≤◌, ◌<◌, ◌≡◌, ◌≢◌, refl, ap, ◌∙◌, Bool, true, false, List,
  [], ◌∷◌, ◌++◌, some, arith, ◌==◌, leb, length, ℤ, pos, negsuc, Bool-cases, eq_of_==, inl, inr,
  get_elem?,
}
use c_bpf.Jit.{Code, mov_x, mov_k, stx_dw, ldx_dw, jeq_k, call, exit, other, BpfInsn}
use c_bpf.Jit.Admit.{Operation, no_operation, acquire, read, release}
use c_bpf.Jit.Emit.{cbpf_max_words, Stmt, put, note, reject}
use c_bpf.Jit.Emit.Bytes.{
  below_sound, below, high_byte, all_bytes, mov_bytes, str_bytes, ldr_bytes, gctag_bytes,
  blrs_bytes,
}
use c_bpf.Jit.Emit.Passes.{Encodes}
use c_bpf.Jit.Emit.Templates.{
  Encoder, Config, immediate, kept_register, clear_from, clear_registers, prologue, template, body,
  epilogue, statements, fixed, when_set, saves, entry, scrub, restores, leave, cap_word, cap_mov,
  cap_str, cap_ldr, cap_blrs, cap_ret_clr, cap_ldr_c16_sp, cap_retr_c16, cap_gctag, native_reg,
  distance, times_four, op_number,
}
use c_bpf.Jit.Emit.Encodable.Words.{IsEncoder}
use c_bpf.Jit.Emit.Encodable.Body.{body-Encodes}
use c_bpf.Jit.Emit.Encodable.Frame.{all_of, prologue-Encodes, epilogue-Encodes}

module _ (e : Encoder) (v : IsEncoder e) where
  -- Of a program whose codes the compiler knows, every word has an encoding.
  pub statements-Encodes :
      (k : Config) (ops : ℕ → Operation) (p : List BpfInsn)
      → ((j : ℕ) (i : BpfInsn) (n : ℕ) → get_elem? p j ≡ some i → i.code ≢ other n)
      → length p ≤ 64
      → Encodes e.fault cbpf_max_words (statements e k ops p)
  unfolding statements
  statements-Encodes k ops p known le =
      all_of e v (prologue e k) (body e ops p 0 ++ epilogue e k) (prologue-Encodes e v k) (
        all_of e v (body e ops p 0) (epilogue e k)
          (body-Encodes e v ops p 0 known (omega (arith, le))) (epilogue-Encodes e v k))
