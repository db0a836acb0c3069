-- ===== src/Runtime/Gateway/Frame.antt =====
-- linux/ownership/cbpf_runtime.c, `cbpf_gateway`: what it saves on the stack it finds there again.
use c_bpf.Base.{
  ℕ, ◌+◌, ◌%◌, ◌^◌, ◌≤◌, ◌<◌, ◌≡◌, refl, ap, ◌∙◌, true, some, List, [], ◌∷◌, ◌++◌, ◌==◌, store,
  arith, if_rule,
}
use c_bpf.Cheri.{Cheri, IsCheri}
use c_bpf.Runtime.Gateway.{
  Asm, bti_c, bl_cbpf_gate_impl, mov_x_sp, mov_sp_x, sub_sp, add_sp, mov_xzr, retr_c, str_x, str_c,
  ldr_x, ldr_c, mov_x, mov_c, cmn_x, b_ne, save, restore, Half, word, low, high, Core, x, set_x,
  set_c, add64, store_c, step, exec, on_some,
}

module _ (c : Cheri) (laws : IsCheri c) (impl : Core c → Core c) where
  -- A part without branches.
  pub data Line : List Asm → Core c → Core c → Type 0 where
    end : {s : Core c} → Line [] s s
    next :
        {i : Asm} {is : List Asm} {s t u : Core c}
        → step c impl i s ≡ some t
        → Line is t u
        → Line (i ∷ is) s u

  exec-step :
      (i : Asm) (is : List Asm) (s t : Core c)
      → step c impl i s ≡ some t
      → exec c impl 0 (i ∷ is) s ≡ exec c impl 0 is t
  unfolding exec step
  exec-step bti_c is s t e = ap (on_some c (exec c impl 0 is)) e
  exec-step bl_cbpf_gate_impl is s t e = ap (on_some c (exec c impl 0 is)) e
  exec-step (mov_x_sp d) is s t e = ap (on_some c (exec c impl 0 is)) e
  exec-step (mov_sp_x r) is s t e = ap (on_some c (exec c impl 0 is)) e
  exec-step (sub_sp n) is s t e = ap (on_some c (exec c impl 0 is)) e
  exec-step (add_sp n) is s t e = ap (on_some c (exec c impl 0 is)) e
  exec-step (mov_xzr d) is s t e = ap (on_some c (exec c impl 0 is)) e
  exec-step (str_x r o) is s t e = ap (on_some c (exec c impl 0 is)) e
  exec-step (str_c r o) is s t e = ap (on_some c (exec c impl 0 is)) e
  exec-step (ldr_x r o) is s t e = ap (on_some c (exec c impl 0 is)) e
  exec-step (ldr_c r o) is s t e = ap (on_some c (exec c impl 0 is)) e
  exec-step (mov_x d r) is s t e = ap (on_some c (exec c impl 0 is)) e
  exec-step (mov_c d r) is s t e = ap (on_some c (exec c impl 0 is)) e
  exec-step (cmn_x r n) is s t e = ap (on_some c (exec c impl 0 is)) e
  exec-step (b_ne n) is s t e = cc
  exec-step (retr_c r) is s t e = cc

  -- A part, and what follows it.
  pub exec-Line :
      (is js : List Asm) (s t : Core c)
      → Line is s t
      → exec c impl 0 (is ++ js) s ≡ exec c impl 0 js t
  exec-Line [] js s t end = refl
  exec-Line (i ∷ is) js s t (next {t = u} e r) =
      exec-step i (is ++ js) s u e ∙ exec-Line is js u t r

  module _ (p : ℕ) (s : Core c) (at_top : x c s 15 ≡ p + 128) (fits : p + 128 < 2 ^ 64)
      (aligned : p % 16 ≡ 0) where
    -- The stack pointer on entry is saved as a number.
    abbrev pub frame : ℕ → Half c
    frame =
        let m =
          store (store s.mem (p + 0) (word (x c s 15))) (p + 8)
            (word (c.address_get (c.integer s.sp))) in
        let put = λ (a : ℕ) (v : c.Cap) (m : ℕ → Half c).
          store (store m (p + a) (low v)) (p + a + 8) (high v) in
        put 112 (s.reg 30) (
          put 96 (s.reg 22) (
            put 80 (s.reg 21)
              (put 64 (s.reg 20) (put 48 (s.reg 19) (put 32 (s.reg 17) (put 16 (s.reg 13) m))))))

    unfoldable pub saved : Core c
    saved = record s { reg = store s.reg 12 (c.integer s.sp); sp = p; mem = frame }

    str_x-step :
        (r o : ℕ) (t : Core c)
        → o + 16 ≤ 128
        → t.sp ≡ p
        → step c impl (str_x r o) t ≡ some (record t { mem = store t.mem (p + o) (word (x c t r)) })
    unfolding step
    str_x-step r o t h e =
        ap (λ n. some (record t { mem = store t.mem n (word (x c t r)) })) (omega (arith, e))

    str_c-step :
        (r o : ℕ) (t : Core c)
        → o + 16 ≤ 128
        → o % 16 ≡ 0
        → t.sp ≡ p
        → step c impl (str_c r o) t ≡ some (store_c c (p + o) (t.reg r) t)
    unfolding step
    str_c-step r o t h a e =
        let q : add64 c t.sp o ≡ p + o = omega (arith, e) in
        rw q (
          if_rule (λ y. y ≡ some (store_c c (p + o) (t.reg r) t)) ((p + o) % 16 == 0) _ _
            (λ g. refl) (λ g. ground arith))

    pub save-Line : Line save s saved
    unfolding step saved
    save-Line = next refl (
        next refl (
          next refl (
            next lowered (
              next (str_x-step 15 0 _ (omega arith) refl) (
                next (str_x-step 12 8 _ (omega arith) refl) (
                  next (str_c-step 13 16 _ (omega arith) refl refl) (
                    next (str_c-step 17 32 _ (omega arith) refl refl) (
                      next (str_c-step 19 48 _ (omega arith) refl refl) (
                        next (str_c-step 20 64 _ (omega arith) refl refl) (
                          next (str_c-step 21 80 _ (omega arith) refl refl) (
                            next (str_c-step 22 96 _ (omega arith) refl refl)
                              (next (str_c-step 30 112 _ (omega arith) refl refl) end))))))))))))
      where
        lowered :
            step c impl (sub_sp 128) (record (set_x c 12 s.sp s) { sp = x c s 15 })
            ≡ some (record (set_x c 12 s.sp s) { sp = p })
        lowered = ap (λ n. some (record (set_x c 12 s.sp s) { sp = n })) (omega (arith, at_top))

    -- The memory that the part behind the call finds: the frame as it was left.
    module _ (u : Core c) (same_sp : u.sp ≡ p)
        (held : (o : ℕ) → o < 128 → u.mem (p + o) ≡ frame (p + o)) where
      ldr_c-step :
          (d o : ℕ) (v : c.Cap) (t : Core c)
          → o + 16 ≤ 128
          → o % 16 ≡ 0
          → t.sp ≡ p
          → t.mem (p + o) ≡ low v
          → t.mem (p + o + 8) ≡ high v
          → step c impl (ldr_c d o) t ≡ some (set_c c d v t)
      unfolding step
      ldr_c-step d o v t h a e l g =
          let q : add64 c t.sp o ≡ p + o = omega (arith, e) in
          let m : (add64 c t.sp o % 16 == 0) ≡ true = ground arith in
          rw (m, q, l, g, laws.equal_refl v) refl

      -- A capability of the frame.
      reload :
          (d o : ℕ) (v : c.Cap) (t : Core c)
          → o + 16 ≤ 128
          → o % 16 ≡ 0
          → t.sp ≡ p
          → t.mem ≡ u.mem
          → frame (p + o) ≡ low v
          → frame (p + (o + 8)) ≡ high v
          → step c impl (ldr_c d o) t ≡ some (set_c c d v t)
      reload d o v t h a e m l g =
          ldr_c-step d o v t h a e (ap (λ f. f (p + o)) m ∙ held o (omega arith) ∙ l)
            (ap (λ f. f (p + o + 8)) m ∙ ap u.mem (omega arith) ∙ held (o + 8) (omega arith) ∙ g)

      -- A number of the frame.
      reload_x :
          (d o n : ℕ) (t : Core c)
          → o + 16 ≤ 128
          → t.sp ≡ p
          → t.mem ≡ u.mem
          → frame (p + o) ≡ word n
          → step c impl (ldr_x d o) t ≡ some (set_x c d n t)
      unfolding step
      reload_x d o n t h e m f =
          let q : add64 c t.sp o ≡ p + o = omega (arith, e) in
          rw (q, ap (λ g. g (p + o)) m, held o (omega arith), f) refl

      unfoldable pub restored : Core c
      restored =
          let a = set_c c 19 (s.reg 19) (
            set_c c 17 (s.reg 17)
              (set_c c 13 (s.reg 13) (set_x c 12 s.sp (set_x c 15 (x c s 15) u)))) in
          let b =
            set_c c 14 (s.reg 30)
              (set_c c 22 (s.reg 22) (set_c c 21 (s.reg 21) (set_c c 20 (s.reg 20) a))) in
          record b { sp = s.sp }

      pub restore-Line : s.sp < 2 ^ 64 → Line restore u restored
      unfolding step restored
      restore-Line h = next (reload_x 15 0 (x c s 15) _ (omega arith) same_sp refl (ground arith)) (
          next
            (reload_x 12 8 s.sp _ (omega arith) same_sp refl
              (ground (arith, laws.integer_address s.sp h)))
            (next
              (reload 13 16 (s.reg 13) _ (omega arith) refl same_sp refl (ground arith)
                (ground arith))
              (next
                (reload 17 32 (s.reg 17) _ (omega arith) refl same_sp refl (ground arith)
                  (ground arith))
                (next
                  (reload 19 48 (s.reg 19) _ (omega arith) refl same_sp refl (ground arith)
                    (ground arith))
                  (next
                    (reload 20 64 (s.reg 20) _ (omega arith) refl same_sp refl (ground arith)
                      (ground arith))
                    (next
                      (reload 21 80 (s.reg 21) _ (omega arith) refl same_sp refl (ground arith)
                        (ground arith))
                      (next
                        (reload 22 96 (s.reg 22) _ (omega arith) refl same_sp refl (ground arith)
                          (ground arith))
                        (next
                          (reload 14 112 (s.reg 30) _ (omega arith) refl same_sp refl (ground arith)
                            (ground arith))
                          (next refl (
                            next
                              (ap (λ n. some (record restored { sp = n }))
                                (laws.integer_address s.sp h))
                              end))))))))))
