-- ===== src/Jit/Image.antt =====
-- linux/ownership/cbpf_jit.c, `cbpf_jit_compile`: an admitted program compiles, and to what.
use mathlib.Core.Path.{subst}
use c_bpf.Base.{
  ℕ, zero, suc, ◌+◌, ◌*◌, ◌≤◌, ◌<◌, ◌≡◌, ◌≢◌, ◌↔◌, refl, ap, ◌∙◌, Bool, true, false, not, ◌||◌,
  Option, none, some, List, [], ◌∷◌, arith, ◌==◌, if◌then◌else◌, length, get_elem?,
}
use c_bpf.Jit.{Code, other, BpfInsn}
use c_bpf.Jit.Admit.{
  Linkage, Admission, Table, admit, admitted, refused, transfer, pass, Passed, admit_loop, initial,
}
use c_bpf.Jit.Emit.{cbpf_max_words, Layout, Emitter, Stmt, perform_all}
use c_bpf.Jit.Emit.Passes.{count, listing, Agrees, Fits, Encodes, Distinct, at, lay_out}
use c_bpf.Jit.Emit.Writing.{Holds, put_words, put_words-Holds, write_all, check_all}
use c_bpf.Jit.Emit.Templates.{Encoder, Config, statements}
use c_bpf.Jit.Emit.Encodable.{statements-Encodes}
use c_bpf.Jit.Emit.Encodable.Words.{IsEncoder}
use c_bpf.Jit.Emit.Shape.{statements-Distinct, statements-count}
use c_bpf.Jit.Soundness.{admit_loop_inv, admit_inv}
use c_bpf.Jit.Compile.{
  Program, Failure, Native, Compilation, rejected, compiled, eopnotsupp, einval, enomem, Memory,
  unfit, generate, zeroed, publish, emit_and_check, lay_and_emit, failure_of, Marks, marked,
  compile_image, cbpf_jit_compile,
}

-- The image of the statements: for one layout, which says where every place of the code is, the
-- words from the first on are those that the layout determines.
pub record IsImage (ss : List Stmt) (r : Native) : Type 0 where
  pub layout : Layout
  pub placed : Agrees layout ss 0 0
  pub holds : Holds r.image 0 (listing layout ss 0)
  pub words : r.words ≡ count ss
  pub offsets : (n : ℕ) → r.offsets n ≡ 4 * layout.offset n

publish_emitted :
    (l : Layout) (a : ℕ → ℕ) (n start : ℕ)
    → publish (at l (some a) n n start true)
      ≡ compiled (record { image = a; words = n; offsets = λ j. l.offset j * 4 })
unfolding publish
publish_emitted l a n start = let e : (n == n) ≡ true = ground arith in rw e refl

-- The second pass and the third over a layout that agrees with the statements.
emit_and_check-IsImage :
    (fault : ℕ) (ss : List Stmt) (l : Layout) (st : ℕ)
    → Encodes fault cbpf_max_words ss
    → Fits cbpf_max_words l
    → count ss ≤ cbpf_max_words
    → Agrees l ss 0 0
    → (r : Native) × (emit_and_check fault ss (at l none (count ss) 0 st false) ≡ compiled r)
      × IsImage ss r
unfolding emit_and_check generate
emit_and_check-IsImage fault ss l st enc fits small placed =
    let n = count ss in
    let a : ℕ → ℕ = put_words 0 (listing l ss 0) (λ _. fault) in
    let written =
      (write_all fault ss l (λ _. fault) 0 n 0 (omega arith) small enc fits placed).end in
    let held = put_words-Holds 0 (listing l ss 0) (λ _. fault) in
    let checked = (check_all fault ss l a 0 n 0 (omega arith) small enc fits placed held).end in
    let total : 0 + n ≡ n = omega arith in
    (
      record { image = a; words = n; offsets = λ j. l.offset j * 4 },
      ap
            (λ (c : Emitter).
              publish (perform_all fault ss (record c { check = true; index = 0; start = 0 })))
            (written.1)
          ∙ ap publish (checked.1)
          ∙ ap (λ i. publish (at l (some a) i n checked.0 true)) total
          ∙ publish_emitted l a n checked.0,
      record {
        layout = l;
        placed = placed;
        holds = held;
        words = refl;
        offsets = λ j. omega arith;
      },
    )

lay_and_emit-IsImage :
    (fault : ℕ) (ss : List Stmt) (m : Memory)
    → Encodes fault cbpf_max_words ss
    → Distinct ss
    → (0 < count ss) × (count ss ≤ 512)
    → m.binary ≡ true
    → (r : Native) × (lay_and_emit fault ss m ≡ compiled r) × IsImage ss r
unfolding lay_and_emit generate
lay_and_emit-IsImage fault ss m enc once (some_word, small) room =
    let v = lay_out fault ss _ 0 0 (omega (arith, small)) enc once empty in
    let total : (perform_all fault ss zeroed).index ≡ count ss = omega (arith, v.index) in
    let done : perform_all fault ss zeroed
        ≡ at (perform_all fault ss zeroed).layout none (count ss) 0 v.shape.0 false =
      v.shape.1
      ∙ ap (λ i. at (perform_all fault ss zeroed).layout none i 0 v.shape.0 false) total in
    let (r, e, image) =
      emit_and_check-IsImage fault ss (perform_all fault ss zeroed).layout v.shape.0 enc v.fits
        (omega (arith, small)) v.agrees in
    (
      r,
      emitted (perform_all fault ss zeroed) (ap (λ (c : Emitter). c.failed) done) total
          (ap (emit_and_check fault ss) done ∙ e),
      image,
    )
  where
    empty : Fits cbpf_max_words zeroed.layout
    empty = record {
      offset = λ j. omega arith;
      restricted_exit = omega arith;
      executive_exit = omega arith;
      executive_words = omega arith;
    }

    emitted :
        (c : Emitter) {r : Native}
        → c.failed ≡ false
        → c.index ≡ count ss
        → emit_and_check fault ss c ≡ compiled r
        → (if c.failed || c.index == 0
            then rejected einval
            else if not m.binary
            then rejected enomem
            else emit_and_check fault ss c)
          ≡ compiled r
    emitted c f n e =
        let nonempty : (c.failed || c.index == 0) ≡ false = ground (arith, some_word) in
        rw (nonempty, room) e

-- The compiler knows the code of every instruction that admission passes.
admit_loop_known :
    (l : Linkage) (is : List BpfInsn) (pc len : ℕ) (t T : Table)
    → admit_loop l is pc len t ≡ admitted T
    → (j : ℕ) (i : BpfInsn) (n : ℕ) → get_elem? is j ≡ some i
    → i.code ≢ other n
unfolding transfer
admit_loop_known l [] pc len t T e j i n h = cc
admit_loop_known l (x ∷ is) pc len t T e zero i n h =
    let (r, passes, rest) = admit_loop_inv l x is pc len t T e in
    λ q.
      let same : x.code ≡ other n = ap (λ (o : Option BpfInsn). code_of o) h ∙ q in
      refusal r (subst (λ c. transfer l c x pc len t.acquisitions (t.flow pc) ≡ pass r) same passes)
  where
    code_of : Option BpfInsn → Code
    code_of none = other n
    code_of (some y) = y.code

    refusal : (r : Passed) → transfer l (other n) x pc len t.acquisitions (t.flow pc) ≢ pass r
    refusal r h = cc
admit_loop_known l (x ∷ is) pc len t T e (suc j) i n h =
    let (r, passes, rest) = admit_loop_inv l x is pc len t T e in
    admit_loop_known l is (pc + 1) len _ T rest j i n h

-- The programs that the compiler takes.
pub record IsSuitable (p : Program) : Type 0 where
  pub requested : p.jit_requested ≡ true
  pub unblinded : p.blinding_enabled ≡ false
  pub sched_cls : p.is_sched_cls ≡ true
  pub main : p.is_func ≡ false
  pub no_funcs : p.func_cnt ≡ 0
  pub no_func_info : p.func_info_cnt ≡ 0
  pub no_maps : p.used_map_cnt ≡ 0
  pub nonempty : 0 < length p.insns
  pub bounded : length p.insns ≤ 64

unfit_iff : (p : Program) → (unfit p ≡ false) ↔ IsSuitable p
unfolding unfit
unfit_iff p = (
  λ h. record {
    requested = ground arith;
    unblinded = ground arith;
    sched_cls = ground arith;
    main = ground arith;
    no_funcs = ground arith;
    no_func_info = ground arith;
    no_maps = ground arith;
    nonempty = ground arith;
    bounded = ground arith;
  },
  λ v. ground (
    arith, v.requested, v.unblinded, v.sched_cls, v.main, v.no_funcs, v.no_func_info, v.no_maps,
    v.nonempty, v.bounded,
  ),
)

compile_emits :
    (e : Encoder) (k : Config) (l : Linkage) (m : Memory) (p : Program) (t : Table) (r : Native)
    → unfit p ≡ false
    → admit l p.insns ≡ admitted t
    → m.context ≡ true
    → lay_and_emit e.fault (statements e k t.operation p.insns) m ≡ compiled r
    → compile_image e k l m p ≡ compiled r
unfolding compile_image
compile_emits e k l m p t r fit ok context h = rw (fit, context, ok) h

-- Where the encoders keep to their documentation, a program that the compiler takes and `admit`
-- accepts compiles if both allocations succeed: no pass fails, the image is that of its statements,
-- and the program is marked for the gates and as compiled to so many bytes.
pub compile-IsImage :
    (e : Encoder) (k : Config) (l : Linkage) (m : Memory) (p : Program) (w : Marks) (t : Table)
    → IsEncoder e
    → IsSuitable p
    → admit l p.insns ≡ admitted t
    → m.context ≡ true
    → m.binary ≡ true
    → (r : Native) × (cbpf_jit_compile e k l m p w
        ≡ (record { cbpf_gate = true; jited = true; jited_len = r.words * 4 }, compiled r))
      × IsImage (statements e k t.operation p.insns) r
unfolding cbpf_jit_compile marked
compile-IsImage e k l m p w t v suitable ok context binary =
    let small = suitable.bounded in
    let known =
      admit_loop_known l p.insns 0 (length p.insns) initial t (admit_inv l p.insns t ok).0 in
    let (r, emitted, image) =
      lay_and_emit-IsImage e.fault (statements e k t.operation p.insns) m
        (statements-Encodes e v k t.operation p.insns known small)
        (statements-Distinct e k t.operation p.insns)
        (statements-count e k t.operation p.insns small) binary in
    (
      r,
      ap (λ c. (marked w c, c))
          (compile_emits e k l m p t r ((unfit_iff p).1 suitable) ok context emitted),
      image,
    )

rejected_inv :
    (b : Bool) (x : Failure) (y : Compilation) {r : Native}
    → (if b then rejected x else y) ≡ compiled r
    → (b ≡ false) × (y ≡ compiled r)
rejected_inv true x y h = cc
rejected_inv false x y h = (refl, h)

lay_and_emit_inv :
    (fault : ℕ) (ss : List Stmt) (m : Memory) (r : Native)
    → lay_and_emit fault ss m ≡ compiled r
    → m.binary ≡ true
unfolding lay_and_emit
lay_and_emit_inv fault ss m r h =
    let c : Emitter = generate fault ss zeroed in
    let more =
      (rejected_inv (c.failed || c.index == 0) einval
        (if not m.binary then rejected enomem else emit_and_check fault ss c) h).1 in
    let room = (rejected_inv (not m.binary) enomem (emit_and_check fault ss c) more).0 in
    ground arith

compile_inv :
    (e : Encoder) (k : Config) (l : Linkage) (m : Memory) (p : Program) (r : Native)
    → compile_image e k l m p ≡ compiled r
    → IsSuitable p
      × (m.context ≡ true)
      × (m.binary ≡ true)
      × ((t : Table) × (admit l p.insns ≡ admitted t))
unfolding compile_image
compile_inv e k l m p r h =
    let rest : Compilation = elim (admit l p.insns) [
      | refused x ↦ rejected (failure_of x)
      | admitted t ↦ lay_and_emit e.fault (statements e k t.operation p.insns) m
    ] in
    let (fit, h₁) =
      rejected_inv (unfit p) eopnotsupp (if not m.context then rejected enomem else rest) h in
    let (context, h₂) = rejected_inv (not m.context) enomem rest h₁ in
    let (t, ok, binary) = passed (admit l p.insns) refl h₂ in
    ((unfit_iff p).0 fit, ground arith, binary, (t, ok))
  where
    passed :
        (w : Admission)
        → admit l p.insns ≡ w
        → (elim w [
          | refused x ↦ rejected (failure_of x)
          | admitted t ↦ lay_and_emit e.fault (statements e k t.operation p.insns) m
        ])
          ≡ compiled r
        → (t : Table) × (admit l p.insns ≡ admitted t) × (m.binary ≡ true)
    passed (refused x) q z = cc
    passed (admitted t) q z =
        (t, q, lay_and_emit_inv e.fault (statements e k t.operation p.insns) m r z)

-- Where the encoders keep to their documentation, `cbpf_jit_compile` leaves an image exactly when
-- the program is suitable (the JIT requested and no blinding; of type SCHED_CLS, not a function,
-- without functions, function information or maps; 1 to 64 instructions), both allocations succeed
-- and `admit` accepts it.
pub compile_iff :
    (e : Encoder) (k : Config) (l : Linkage) (m : Memory) (p : Program) (w : Marks)
    → IsEncoder e
    → ((r : Native) × ((cbpf_jit_compile e k l m p w).1 ≡ compiled r)) ↔ (
        IsSuitable p
        × (m.context ≡ true)
        × (m.binary ≡ true)
        × ((t : Table) × (admit l p.insns ≡ admitted t)))
unfolding cbpf_jit_compile
compile_iff e k l m p w v = (
  λ (r, h). compile_inv e k l m p r h,
  λ (suitable, context, binary, (t, ok)).
      let (r, h, image) = compile-IsImage e k l m p w t v suitable ok context binary in
      (r, ap (λ (x : Marks × Compilation). x.1) h),
)
