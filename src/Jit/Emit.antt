-- ===== src/Jit/Emit.antt =====
-- linux/ownership/cbpf_jit.c, `word` to `generate`: the three passes of the compiler over one list of
-- statements. Words are kept in the CPU's byte order, which `cpu_to_le32` and `le32_to_cpu` undo.
pub mod Shape
pub mod Templates
pub mod Bytes
pub mod Encodable
pub mod Passes
pub mod Writing
use c_bpf.Base.{
  ℕ, zero, suc, ◌+◌, ◌-◌, Bool, true, false, ◌&&◌, ◌||◌, Option, none, some, List, [], ◌∷◌, ◌==◌,
  leb, if◌then◌else◌, store,
}

abbrev pub cbpf_max_words : ℕ
cbpf_max_words = 1024

-- The fields of the compiler that the first pass fills in and the others compare.
pub record Layout : Type 0 where
  pub offset : ℕ → ℕ
  pub restricted_exit : ℕ
  pub executive_exit : ℕ
  pub executive_words : ℕ

-- The compiler, with the local `start` of `epilogue`. `image` is NULL in the first pass.
pub record Emitter : Type 0 where
  pub layout : Layout
  pub image : Option (ℕ → ℕ)
  pub index : ℕ
  pub words : ℕ
  pub start : ℕ
  pub check : Bool
  pub failed : Bool

abbrev pub fail : Emitter → Emitter
fail c = record c { failed = true }

-- `c->image && c->index >= c->words`.
unfoldable pub beyond : Emitter → Bool
beyond c = elim c.image [ none ↦ false | some a ↦ leb c.words c.index ]

-- The image with the word, or the comparison with it.
unfoldable pub deposit : ℕ → Emitter → Emitter
deposit w c = elim c.image [
  | none ↦ c
  | some a ↦
      if c.check
      then if a c.index == w then c else fail c
      else record c { image = some (store a c.index w) }
]

-- `word`, where `fault` is AARCH64_BREAK_FAULT.
unfoldable pub word : ℕ → ℕ → Emitter → Emitter
unfolding beyond deposit
word fault w c =
    if leb cbpf_max_words c.index || beyond c || w == fault
    then fail c
    else record (deposit w c) { index = c.index + 1 }

-- What a pass notes: the start of an instruction, the two exits, and the size of the epilogue.
pub data Place : Type 0 where
  at_pc : ℕ → Place
  restricted executive sized : Place

abbrev pub noted : Place → Layout → ℕ
noted (at_pc n) l = l.offset n
noted restricted l = l.restricted_exit
noted executive l = l.executive_exit
noted sized l = l.executive_words

abbrev pub set_place : Place → ℕ → Layout → Layout
set_place (at_pc n) v l = record l { offset = store l.offset n v }
set_place restricted v l = record l { restricted_exit = v }
set_place executive v l = record l { executive_exit = v }
set_place sized v l = record l { executive_words = v }

abbrev pub measured : Place → ℕ → ℕ → ℕ
measured sized index start = index - start
measured _ index start = index

abbrev pub next_start : Place → ℕ → ℕ → ℕ
next_start executive index start = index
next_start _ index start = start

-- `if (!c->image) field = value; else if (field != value) c->failed = true;`
unfoldable pub note_place : Place → Emitter → Emitter
note_place p c =
    let v = measured p c.index c.start in
    let c' : Emitter = record c { start = next_start p c.index c.start } in
    elim c.image [
      | none ↦ record c' { layout = set_place p v c.layout }
      | some a ↦ if noted p c.layout == v then c' else fail c'
    ]

-- The statements of the generator. The operand of `put` is what `word` is called with, which may
-- look at the layout and at the present index; `reject` is `c->failed = true`.
pub data Stmt : Type 0 where
  put : (Layout → ℕ → ℕ) → Stmt
  note : Place → Stmt
  reject : Stmt

unfoldable pub perform : ℕ → Stmt → Emitter → Emitter
unfolding word note_place
perform fault (put f) c = word fault (f c.layout c.index) c
perform fault (note p) c = note_place p c
perform fault reject c = fail c

unfoldable pub perform_all : ℕ → List Stmt → Emitter → Emitter
perform_all fault [] c = c
perform_all fault (s ∷ ss) c = perform_all fault ss (perform fault s c)
