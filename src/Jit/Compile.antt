-- ===== src/Jit/Compile.antt =====
-- linux/ownership/cbpf_jit.c, `generate` and `cbpf_jit_compile`. What is printed, and the locking and
-- flushing of the image, are left out; `Memory` says which allocations succeed.
use c_bpf.Base.{
  ℕ, ◌*◌, Bool, true, false, not, ◌||◌, none, some, List, ◌==◌, ltb, if◌then◌else◌, length,
}
use c_bpf.Jit.{BpfInsn}
use c_bpf.Jit.Admit
use c_bpf.Jit.Admit.{Linkage, Table, admit, admitted, refused}
use c_bpf.Jit.Emit.{Emitter, Stmt, perform_all}
use c_bpf.Jit.Emit.Templates.{Encoder, Config, statements}

-- What the compiler looks at of a `struct bpf_prog`.
pub record Program : Type 0 where
  pub jit_requested : Bool
  pub blinding_enabled : Bool
  pub is_sched_cls : Bool
  pub is_func : Bool
  pub func_cnt : ℕ
  pub func_info_cnt : ℕ
  pub used_map_cnt : ℕ
  pub insns : List BpfInsn

pub data Failure : Type 0 where
  eopnotsupp enomem einval : Failure

-- What is left in the program: the image, its number of words, and the offsets in bytes.
pub record Native : Type 0 where
  pub image : ℕ → ℕ
  pub words : ℕ
  pub offsets : ℕ → ℕ

pub data Compilation : Type 0 where
  rejected : Failure → Compilation
  compiled : Native → Compilation

-- `kzalloc` of the context, and `bpf_jit_binary_alloc`.
pub record Memory : Type 0 where
  pub context : Bool
  pub binary : Bool

unfoldable pub unfit : Program → Bool
unfit p =
    not p.jit_requested
    || p.blinding_enabled
    || not p.is_sched_cls
    || p.is_func
    || not (p.func_cnt == 0)
    || not (p.func_info_cnt == 0)
    || not (p.used_map_cnt == 0)
    || length p.insns == 0
    || ltb 64 (length p.insns)

-- The local `start` is new in every pass.
unfoldable pub generate : ℕ → List Stmt → Emitter → Emitter
generate fault ss c = perform_all fault ss (record c { index = 0; start = 0 })

-- The context as `kzalloc` leaves it.
abbrev pub zeroed : Emitter
zeroed = record {
  layout = record { offset = λ _. 0; restricted_exit = 0; executive_exit = 0; executive_words = 0 };
  image = none;
  index = 0;
  words = 0;
  start = 0;
  check = false;
  failed = false;
}

-- The image of the third pass, as the program's.
unfoldable pub publish : Emitter → Compilation
publish c = elim c.image [
  | none ↦ rejected einval
  | some a ↦
      if c.failed || not (c.index == c.words)
      then rejected einval
      else compiled (record { image = a; words = c.words; offsets = λ n. c.layout.offset n * 4 })
]

-- `fill_hole` fills a new image with AARCH64_BREAK_FAULT; the second pass and the third.
unfoldable pub emit_and_check : ℕ → List Stmt → Emitter → Compilation
unfolding generate publish
emit_and_check fault ss c =
    let written = generate fault ss (record c { words = c.index; image = some (λ _. fault) }) in
    publish (generate fault ss (record written { check = true }))

unfoldable pub lay_and_emit : ℕ → List Stmt → Memory → Compilation
unfolding generate emit_and_check
lay_and_emit fault ss m =
    let c = generate fault ss zeroed in
    if c.failed || c.index == 0
    then rejected einval
    else if not m.binary
    then rejected enomem
    else emit_and_check fault ss c

abbrev pub failure_of : Admit.Error → Failure
failure_of Admit.Error.einval = einval
failure_of Admit.Error.eopnotsupp = eopnotsupp

-- From the first test to the label `rejected`, or to the image.
unfoldable pub compile_image : Encoder → Config → Linkage → Memory → Program → Compilation
unfolding unfit lay_and_emit
compile_image e k l m p =
    if unfit p
    then rejected eopnotsupp
    else if not m.context
    then rejected enomem
    else elim (admit l p.insns) [
      | refused x ↦ rejected (failure_of x)
      | admitted t ↦ lay_and_emit e.fault (statements e k t.operation p.insns) m
    ]

-- `prog->aux->cbpf_gate`, `prog->jited` and `prog->jited_len`.
pub record Marks : Type 0 where
  pub cbpf_gate : Bool
  pub jited : Bool
  pub jited_len : ℕ

-- The gate mark is set in any case, and the other two where an image is left.
unfoldable pub marked : Marks → Compilation → Marks
marked w (rejected error) = record w { cbpf_gate = true }
marked w (compiled r) = record { cbpf_gate = true; jited = true; jited_len = r.words * 4 }

unfoldable pub cbpf_jit_compile :
    Encoder → Config → Linkage → Memory → Program → Marks → Marks × Compilation
unfolding compile_image marked
cbpf_jit_compile e k l m p w = let c = compile_image e k l m p in (marked w c, c)
