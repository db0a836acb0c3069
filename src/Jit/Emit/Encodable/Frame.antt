-- ===== src/Jit/Emit/Encodable/Frame.antt =====
-- linux/ownership/cbpf_jit.c: the words of the prologue and the epilogue.
use c_bpf.Base.{ℕ, ◌-◌, ◌^◌, ◌≢◌, refl, Bool, true, false, List, [], ◌∷◌, ◌++◌, arith, pos}
use c_bpf.Jit.Emit.{cbpf_max_words, Stmt}
use c_bpf.Jit.Emit.Bytes.{gctag_bytes}
use c_bpf.Jit.Emit.Passes.{Encodes}
use c_bpf.Jit.Emit.Templates.{
  Encoder, Config, immediate, prologue, epilogue, fixed, when_set, saves, entry, scrub, restores,
  leave, cap_ret_clr, cap_ldr_c16_sp, cap_retr_c16, cap_gctag,
}
use c_bpf.Jit.Emit.Encodable.Words.{
  IsEncoder, within, Within-mono, Within-times_four, Encodes-append, constant, cap_encodes,
  immediate-Encodes, clear_registers-Encodes,
}

module _ (e : Encoder) (v : IsEncoder e) where
  when-Encodes :
      (b : Bool) (w : ℕ) → w ≢ e.fault → Encodes e.fault cbpf_max_words (when_set b (fixed w) [])
  when-Encodes true w h = ((λ l i f le. h), tt)
  when-Encodes false w h = tt

  pub all_of :
      (xs ys : List Stmt)
      → Encodes e.fault cbpf_max_words xs
      → Encodes e.fault cbpf_max_words ys
      → Encodes e.fault cbpf_max_words (xs ++ ys)
  all_of xs ys = Encodes-append e.fault cbpf_max_words xs ys

  -- The parts of the prologue.
  saves-Encodes : Encodes e.fault cbpf_max_words (saves e)
  unfolding saves
  saves-Encodes = (
    λ l i f le. v.push e.fp e.lr e.sp v.fp v.lr v.sp,
    (
      λ l i f le. v.mov e.fp e.sp v.fp v.sp,
      (
        λ l i f le. v.push 19 20 e.sp (omega arith) (omega arith) v.sp,
        (
          λ l i f le. v.push 21 22 e.sp (omega arith) (omega arith) v.sp,
          (
            λ l i f le. v.push 23 24 e.sp (omega arith) (omega arith) v.sp,
            (
              λ l i f le. v.push 25 26 e.sp (omega arith) (omega arith) v.sp,
              (
                λ l i f le. v.push 27 28 e.sp (omega arith) (omega arith) v.sp,
                (
                  λ l i f le. v.push e.zr e.zr e.sp v.zr v.zr v.sp,
                  (
                    λ l i f le. v.sub_i e.sp e.sp 16 v.sp v.sp (omega arith),
                    (
                      λ l i f le. v.mov 0 e.sp (omega arith) v.sp,
                      (
                        λ l i f le. v.movz 1 16 0 (omega arith) (omega arith) (omega arith) refl,
                        (
                          λ l i f le. v.adr 2 _ (omega arith) (
                              Within-times_four 1024 (2 ^ 20 - 1) _ (omega arith)
                                (within l.executive_exit i 1024 f.executive_exit le)),
                          (
                            λ l i f le.
                                v.movz 3 _ 0 (omega arith) (omega (arith, f.executive_words))
                                  (omega arith) refl,
                            (λ l i f le. v.mov 4 9 (omega arith) (omega arith), tt),
                          ),
                        ),
                      ),
                    ),
                  ),
                ),
              ),
            ),
          ),
        ),
      ),
    ),
  )

  entry-Encodes : Encodes e.fault cbpf_max_words (entry e)
  unfolding entry
  entry-Encodes = (
    λ l i f le. v.blr 10 (omega arith),
    (
      λ l i f le. v.cbz 0 (pos 3) (omega arith) (omega arith),
      (
        λ l i f le. v.movz 7 0 0 (omega arith) (omega arith) (omega arith) refl,
        (
          λ l i f le. v.b _ (
              Within-mono 1024 (2 ^ 25 - 1) _ (omega arith)
                (within l.executive_exit i 1024 f.executive_exit le)),
          clear_registers-Encodes e v true,
        ),
      ),
    ),
  )

  pub prologue-Encodes : (k : Config) → Encodes e.fault cbpf_max_words (prologue e k)
  unfolding prologue
  prologue-Encodes k =
      all_of (when_set k.bti (fixed e.bti_jc) [])
        (fixed (e.mov 9 e.lr)
          ∷ fixed e.nop
          ∷ (when_set k.ptr_auth (fixed e.paciasp) []
              ++ (saves e
                  ++ (immediate e 5 k.prog_address
                      ++ (immediate e 10 k.enter_address ++ entry e)))))
        (when-Encodes k.bti e.bti_jc v.bti_jc)
        (
          (λ l i f le. v.mov 9 e.lr (omega arith) v.lr),
          (
            (λ l i f le. v.nop),
            all_of (when_set k.ptr_auth (fixed e.paciasp) [])
                (saves e
                  ++ (immediate e 5 k.prog_address ++ (immediate e 10 k.enter_address ++ entry e)))
                (when-Encodes k.ptr_auth e.paciasp v.paciasp)
                (all_of (saves e)
                  (immediate e 5 k.prog_address ++ (immediate e 10 k.enter_address ++ entry e))
                  saves-Encodes
                  (all_of (immediate e 5 k.prog_address) (immediate e 10 k.enter_address ++ entry e)
                    (immediate-Encodes e v 5 k.prog_address (omega arith))
                    (all_of (immediate e 10 k.enter_address) (entry e)
                      (immediate-Encodes e v 10 k.enter_address (omega arith)) entry-Encodes))),
          ),
        )

  scrub-Encodes : Encodes e.fault cbpf_max_words (scrub e)
  unfolding scrub
  scrub-Encodes = (
    λ l i f le. constant e v cap_ret_clr refl,
    (
      λ l i f le. v.str64i e.zr e.sp 0 v.zr v.sp (omega arith) refl,
      (
        λ l i f le. v.str64i e.zr e.sp 8 v.zr v.sp (omega arith) refl,
        (λ l i f le. v.mov 7 7 (omega arith) (omega arith), clear_registers-Encodes e v false),
      ),
    ),
  )

  restores-Encodes : Encodes e.fault cbpf_max_words (restores e)
  unfolding restores
  restores-Encodes = (
    λ l i f le. v.add_i e.sp e.sp 16 v.sp v.sp (omega arith),
    (
      λ l i f le. constant e v cap_ldr_c16_sp refl,
      (
        λ l i f le. v.add_i e.sp e.sp 16 v.sp v.sp (omega arith),
        (
          λ l i f le. v.pop 27 28 e.sp (omega arith) (omega arith) v.sp,
          (
            λ l i f le. v.pop 25 26 e.sp (omega arith) (omega arith) v.sp,
            (
              λ l i f le. v.pop 23 24 e.sp (omega arith) (omega arith) v.sp,
              (
                λ l i f le. v.pop 21 22 e.sp (omega arith) (omega arith) v.sp,
                (
                  λ l i f le. v.pop 19 20 e.sp (omega arith) (omega arith) v.sp,
                  (
                    λ l i f le. v.pop e.fp e.lr e.sp v.fp v.lr v.sp,
                    (λ l i f le. v.mov 0 7 (omega arith) (omega arith), tt),
                  ),
                ),
              ),
            ),
          ),
        ),
      ),
    ),
  )

  leave-Encodes : Encodes e.fault cbpf_max_words (leave e)
  unfolding leave
  leave-Encodes = (
    λ l i f le. cap_encodes e v 0xc2 cap_gctag 16 10 refl gctag_bytes (omega arith) (omega arith),
    (
      λ l i f le. v.cbz 10 (pos 2) (omega arith) (omega arith),
      (λ l i f le. constant e v cap_retr_c16 refl, (λ l i f le. v.ret e.lr v.lr, tt)),
    ),
  )

  pub epilogue-Encodes : (k : Config) → Encodes e.fault cbpf_max_words (epilogue e k)
  unfolding epilogue
  epilogue-Encodes k =
      all_of (scrub e) (restores e ++ (when_set k.ptr_auth (fixed e.autiasp) [] ++ leave e))
        scrub-Encodes
        (all_of (restores e) (when_set k.ptr_auth (fixed e.autiasp) [] ++ leave e) restores-Encodes
          (all_of (when_set k.ptr_auth (fixed e.autiasp) []) (leave e)
            (when-Encodes k.ptr_auth e.autiasp v.autiasp) leave-Encodes))
