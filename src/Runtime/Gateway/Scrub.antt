-- ===== src/Runtime/Gateway/Scrub.antt =====
-- linux/ownership/cbpf_runtime.c, `cbpf_gateway`: where it returns, and what is in the registers.
use c_bpf.Base.{
  ℕ, ◌+◌, ◌-◌, ◌%◌, ◌^◌, ◌≤◌, ◌<◌, ◌≡◌, refl, sym, ◌∙◌, Bool, true, false, some, ◌++◌, ◌==◌,
  if◌then◌else◌, arith, Bool-cases, inl, inr,
}
use c_bpf.Cheri.{Cheri, IsCheri}
use c_bpf.Runtime.{u64_max}
use c_bpf.Runtime.Gateway.{
  save, enter, restore, test, scrub, cbpf_gateway, Core, x, set_x, set_c, add64, step, exec,
  KeepsFrame,
}
use c_bpf.Runtime.Gateway.Frame.{
  Line, end, next, exec-Line, frame, saved, save-Line, restored, restore-Line,
}

module _ (c : Cheri) (laws : IsCheri c) where
  -- What `cbpf_gate_impl` is called with: the program's capability, the operation and the PC, on the
  -- stack of the executive.
  pub record IsCall (s t : Core c) : Type 0 where
    pub argument : t.reg 0 ≡ s.reg 0
    pub operation : t.reg 1 ≡ c.integer (x c s 4)
    pub pc : t.reg 2 ≡ c.integer (x c s 5)
    pub stack : t.sp + 128 ≡ x c s 15

  -- The return of an answer to the state at the call of the gateway: to the continuation, or with 0
  -- to the epilogue. What is neither kept nor 0 is the stack, the entry of the gateway and the
  -- registers that the program has for itself.
  pub record IsReturn (s : Core c) (a : c.Cap) (failed : Bool) (r : Core c × c.Cap) : Type 0 where
    pub target : r.1 ≡ (if failed then s.reg 13 else s.reg 30)
    pub answer : r.0.reg 0 ≡ (if failed then c.integer 0 else a)
    pub sp : r.0.sp ≡ s.sp
    pub branch : r.0.reg 14 ≡ r.1
    pub stack : r.0.reg 15 ≡ c.integer (x c s 15)
    pub gate : r.0.reg 17 ≡ s.reg 17
    pub saved : (j : ℕ) → 19 ≤ j → j ≤ 22 → r.0.reg j ≡ s.reg j
    pub link : r.0.reg 30 ≡ s.reg 13
    pub low : (j : ℕ) → 1 ≤ j → j ≤ 13 → r.0.reg j ≡ c.integer 0
    pub high : (j : ℕ) → 23 ≤ j → j ≤ 29 → r.0.reg j ≡ c.integer 0
    pub others : (r.0.reg 16 ≡ c.integer 0) × (r.0.reg 18 ≡ c.integer 0)

  abbrev scrubbed : Core c → Core c
  scrubbed s =
      let z = set_x c 7 0 (
        set_x c 6 0 (
          set_x c 5 0
            (set_x c 4 0 (set_x c 3 0 (set_x c 2 0 (set_x c 1 0 (set_c c 30 (s.reg 13) s))))))) in
      let y =
        set_x c 13 0 (set_x c 12 0 (set_x c 11 0 (set_x c 10 0 (set_x c 9 0 (set_x c 8 0 z))))) in
      set_x c 29 0 (
        set_x c 28 0 (
          set_x c 27 0 (
            set_x c 26 0
              (set_x c 25 0 (set_x c 24 0 (set_x c 23 0 (set_x c 18 0 (set_x c 16 0 y))))))))

  exec-scrub :
      (impl : Core c → Core c) (s : Core c) → exec c impl 0 scrub s ≡ some (scrubbed s, s.reg 14)
  unfolding exec step
  exec-scrub impl s = refl

  -- The two ways through the test.
  abbrev chosen : Bool → Core c → Core c
  chosen failed s =
      if failed
      then set_x c 7 0 (set_x c 0 0 (set_c c 14 (s.reg 13) (record s { zero_flag = true })))
      else record s { zero_flag = false }

  exec-test :
      (impl : Core c → Core c) (s : Core c)
      → c.address_get (s.reg 0) < 2 ^ 64
      → exec c impl 0 (test ++ scrub) s
        ≡ exec c impl 0 scrub (chosen (c.address_get (s.reg 0) == u64_max) s)
  unfolding exec step
  exec-test impl s h = elim (Bool-cases (c.address_get (s.reg 0) == u64_max)) [
    | inl e ↦ let q : (add64 c (x c s 0) 1 == 0) ≡ true = ground arith in rw (e, q) refl
    | inr e ↦ let q : (add64 c (x c s 0) 1 == 0) ≡ false = ground arith in rw (e, q) refl
  ]

  module _ (impl : Core c → Core c) (keeps : KeepsFrame c impl) (p : ℕ) (s : Core c)
      (at_top : x c s 15 ≡ p + 128) (fits : p + 128 < 2 ^ 64) (aligned : p % 16 ≡ 0)
      (small : s.sp < 2 ^ 64) where
    called : Core c
    called =
        let t = saved c laws impl p s at_top fits aligned in
        set_x c 2 (x c s 5) (set_x c 1 (x c s 4) t)

    kept_frame :
        (o : ℕ)
        → o < 128
        → (impl called).mem (p + o) ≡ frame c laws impl p s at_top fits aligned (p + o)
    unfolding called saved
    kept_frame o h = keeps.frame called (p + o) (omega arith) (omega arith)

    kept_sp : (impl called).sp ≡ p
    unfolding called saved
    kept_sp = keeps.sp called

    back : Core c
    back = restored c laws impl p s at_top fits aligned (impl called) kept_sp kept_frame

    called-IsCall : IsCall s called
    unfolding called saved
    called-IsCall = record { argument = refl; operation = refl; pc = refl; stack = sym at_top }

    enter-Line : Line c laws impl enter (saved c laws impl p s at_top fits aligned) (impl called)
    unfolding called step saved
    enter-Line = next refl (next refl (next refl end))

    failed : Bool
    failed = c.address_get ((impl called).reg 0) == u64_max

    exec-gateway :
        exec c impl 0 cbpf_gateway s
        ≡ some (scrubbed (chosen failed back), (chosen failed back).reg 14)
    unfolding back called saved failed restored
    exec-gateway =
        exec-Line c laws impl save _ s _ (save-Line c laws impl p s at_top fits aligned)
        ∙ exec-Line c laws impl enter _ _ _ enter-Line
        ∙ exec-Line c laws impl restore _ _ _ (
            restore-Line c laws impl p s at_top fits aligned (impl called) kept_sp kept_frame small)
        ∙ exec-test impl back (keeps.answer called)
        ∙ exec-scrub impl (chosen failed back)

    returned :
        (b : Bool)
        → IsReturn s ((impl called).reg 0) b (scrubbed (chosen b back), (chosen b back).reg 14)
    unfolding back restored
    returned true = record {
      target = refl;
      answer = refl;
      sp = refl;
      branch = refl;
      stack = refl;
      gate = refl;
      saved = λ j a b. ground arith;
      link = refl;
      low = λ j a b. ground arith;
      high = λ j a b. ground arith;
      others = (refl, refl);
    }
    returned false = record {
      target = refl;
      answer = refl;
      sp = refl;
      branch = refl;
      stack = refl;
      gate = refl;
      saved = λ j a b. ground arith;
      link = refl;
      low = λ j a b. ground arith;
      high = λ j a b. ground arith;
      others = (refl, refl);
    }

  -- Let the gateway be called on a 16-byte aligned stack that has room for its frame. When
  -- `cbpf_gate_impl` leaves that frame and the stack pointer alone, the gateway calls it with the
  -- program's capability, the operation and the PC, on a stack 128 bytes down, and then returns: on an
  -- answer of all ones to the address in `c13` with 0, on any other to the address in `c30` with that
  -- answer. The stack pointer and `c17` and `c19` to `c22`, whole, are what they were, `c15` the
  -- stack's address, `c14` where it returns to, and `c30` what `c13` was. Each other register is 0.
  pub gateway_scrubs :
      (impl : Core c → Core c) (s : Core c)
      → KeepsFrame c impl
      → s.sp < 2 ^ 64
      → x c s 15 < 2 ^ 64
      → 128 ≤ x c s 15
      → x c s 15 % 16 ≡ 0
      → (t : Core c) × IsCall s t
        × ((r : Core c × c.Cap) × (exec c impl 0 cbpf_gateway s ≡ some r)
            × IsReturn s ((impl t).reg 0) (x c (impl t) 0 == u64_max) r)
  unfolding failed
  gateway_scrubs impl s keeps small fits room aligned =
      let p : ℕ = x c s 15 - 128 in
      let a : x c s 15 ≡ p + 128 = omega arith in
      let b : p + 128 < 2 ^ 64 = omega arith in
      let d : p % 16 ≡ 0 = omega arith in
      (
        called impl keeps p s a b d small,
        called-IsCall impl keeps p s a b d small,
        (_, exec-gateway impl keeps p s a b d small, returned impl keeps p s a b d small _),
      )
