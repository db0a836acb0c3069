-- ===== src/Jit/Emit/Passes.antt =====
-- linux/ownership/cbpf_jit.c, `generate`: the first pass fixes the layout, the second writes the words
-- that the layout determines, and the third finds them.
use c_bpf.Base.{
  ℕ, ◌+◌, ◌≤◌, ◌<◌, ◌≡◌, ◌≢◌, refl, ap, ◌∙◌, Bool, true, false, Option, none, List, [], ◌∷◌, arith,
  ◌==◌, leb, Bool-cases, inl, inr,
}
use c_bpf.Jit.Emit.{
  cbpf_max_words, Layout, Emitter, beyond, deposit, word, Place, at_pc, restricted, executive,
  sized, noted, set_place, measured, next_start, note_place, Stmt, put, note, reject, perform,
  perform_all,
}

-- The number of words.
unfoldable pub count : List Stmt → ℕ
count [] = 0
count (put f ∷ ss) = count ss + 1
count (note p ∷ ss) = count ss
count (reject ∷ ss) = count ss

-- The words that a layout determines, from index `i`.
unfoldable pub listing : Layout → List Stmt → ℕ → List ℕ
listing l [] i = []
listing l (put f ∷ ss) i = f l i ∷ listing l ss (i + 1)
listing l (note p ∷ ss) i = listing l ss i
listing l (reject ∷ ss) i = listing l ss i

-- The layout says what the statements note, from index `i` and with the local `start`.
abbrev pub Agrees : Layout → List Stmt → ℕ → ℕ → Type 0
Agrees l [] i start = Unit
Agrees l (put f ∷ ss) i start = Agrees l ss (i + 1) start
Agrees l (note p ∷ ss) i start =
    (noted p l ≡ measured p i start) × Agrees l ss i (next_start p i start)
Agrees l (reject ∷ ss) i start = ⊥

-- The places of a layout are within `n` words.
pub record Fits (n : ℕ) (l : Layout) : Type 0 where
  pub offset : (j : ℕ) → l.offset j ≤ n
  pub restricted_exit : l.restricted_exit ≤ n
  pub executive_exit : l.executive_exit ≤ n
  pub executive_words : l.executive_words ≤ n

-- No statement rejects, and no word within `n` words is the fault.
abbrev pub Encodes : ℕ → ℕ → List Stmt → Type 0
Encodes fault n [] = Unit
Encodes fault n (put f ∷ ss) =
    ((l : Layout) (i : ℕ) → Fits n l → i ≤ n → f l i ≢ fault) × Encodes fault n ss
Encodes fault n (note p ∷ ss) = Encodes fault n ss
Encodes fault n (reject ∷ ss) = ⊥

-- Every place that the statements note is one of `P`.
abbrev pub Notes : (Place → Type 0) → List Stmt → Type 0
Notes P [] = Unit
Notes P (put f ∷ ss) = Notes P ss
Notes P (note p ∷ ss) = P p × Notes P ss
Notes P (reject ∷ ss) = Notes P ss

-- Each place is noted once.
abbrev pub Distinct : List Stmt → Type 0
Distinct [] = Unit
Distinct (put f ∷ ss) = Distinct ss
Distinct (note p ∷ ss) = Notes (λ q. p ≢ q) ss × Distinct ss
Distinct (reject ∷ ss) = Distinct ss

noted-set_place : (p q : Place) (v : ℕ) (l : Layout) → p ≢ q → noted p (set_place q v l) ≡ noted p l
noted-set_place (at_pc n) (at_pc m) v l h = elim (Bool-cases (n == m)) [
  | inl e ↦ absurd (h (let same : n ≡ m = ground arith in ap at_pc same))
  | inr e ↦ rw e refl
]
noted-set_place (at_pc n) restricted v l h = refl
noted-set_place (at_pc n) executive v l h = refl
noted-set_place (at_pc n) sized v l h = refl
noted-set_place restricted (at_pc m) v l h = refl
noted-set_place restricted restricted v l h = absurd (h refl)
noted-set_place restricted executive v l h = refl
noted-set_place restricted sized v l h = refl
noted-set_place executive (at_pc m) v l h = refl
noted-set_place executive restricted v l h = refl
noted-set_place executive executive v l h = absurd (h refl)
noted-set_place executive sized v l h = refl
noted-set_place sized (at_pc m) v l h = refl
noted-set_place sized restricted v l h = refl
noted-set_place sized executive v l h = refl
noted-set_place sized sized v l h = absurd (h refl)

noted-set_place_same : (p : Place) (v : ℕ) (l : Layout) → noted p (set_place p v l) ≡ v
noted-set_place_same (at_pc n) v l = let e : (n == n) ≡ true = ground arith in rw e refl
noted-set_place_same restricted v l = refl
noted-set_place_same executive v l = refl
noted-set_place_same sized v l = refl

set_place-Fits :
    (n : ℕ) (p : Place) (v : ℕ) (l : Layout) → Fits n l → v ≤ n → Fits n (set_place p v l)
set_place-Fits n (at_pc m) v l h le = record {
  offset = λ j. elim (Bool-cases (j == m)) [ inl e ↦ rw e le | inr e ↦ rw e (h.offset j) ];
  restricted_exit = h.restricted_exit;
  executive_exit = h.executive_exit;
  executive_words = h.executive_words;
}
set_place-Fits n restricted v l h le = record {
  offset = h.offset;
  restricted_exit = le;
  executive_exit = h.executive_exit;
  executive_words = h.executive_words;
}
set_place-Fits n executive v l h le = record {
  offset = h.offset;
  restricted_exit = h.restricted_exit;
  executive_exit = le;
  executive_words = h.executive_words;
}
set_place-Fits n sized v l h le = record {
  offset = h.offset;
  restricted_exit = h.restricted_exit;
  executive_exit = h.executive_exit;
  executive_words = le;
}

measured-le : (p : Place) (i start n : ℕ) → i ≤ n → measured p i start ≤ n
measured-le (at_pc m) i start n h = h
measured-le restricted i start n h = h
measured-le executive i start n h = h
measured-le sized i start n h = omega arith

-- A compiler that has not failed.
abbrev pub at : Layout → Option (ℕ → ℕ) → ℕ → ℕ → ℕ → Bool → Emitter
at l image i words start check = record {
  layout = l;
  image = image;
  index = i;
  words = words;
  start = start;
  check = check;
  failed = false;
}

-- The end `d` of the first pass, from index `i`: it has not failed, and its layout is that of the
-- statements.
pub record LaidOut (l : Layout) (ss : List Stmt) (i start : ℕ) (d : Emitter) : Type 0 where
  pub shape : (st : ℕ) × (d ≡ at d.layout none d.index 0 st false)
  pub index : d.index ≡ i + count ss
  pub agrees : Agrees d.layout ss i start
  pub fits : Fits cbpf_max_words d.layout
  pub kept : (p : Place) → Notes (λ q. p ≢ q) ss → noted p d.layout ≡ noted p l

word-layout :
    (fault w : ℕ) (l : Layout) (i words start : ℕ) (check : Bool)
    → i < cbpf_max_words
    → w ≢ fault
    → word fault w (at l none i words start check) ≡ at l none (i + 1) words start check
unfolding word beyond deposit
word-layout fault w l i words start check lt ne =
    let small : leb cbpf_max_words i ≡ false = ground arith in
    let apart : (w == fault) ≡ false = ground arith in rw (small, apart) refl

pub lay_out :
    (fault : ℕ) (ss : List Stmt) (l : Layout) (i start : ℕ)
    → i + count ss ≤ cbpf_max_words
    → Encodes fault cbpf_max_words ss
    → Distinct ss
    → Fits cbpf_max_words l
    → LaidOut l ss i start (perform_all fault ss (at l none i 0 start false))
unfolding perform_all perform note_place count
lay_out fault [] l i start le enc once fits = record {
  shape = (start, refl);
  index = omega arith;
  agrees = tt;
  fits = fits;
  kept = λ p h. refl;
}
lay_out fault (put f ∷ ss) l i start le enc once fits =
    let v = lay_out fault ss l (i + 1) start (omega (arith, le)) enc.1 once fits in
    rw
      (word-layout fault (f l i) l i 0 start false (omega (arith, le))
        (enc.0 l i fits (omega (arith, le))))
      (record {
        shape = v.shape;
        index = omega (arith, v.index);
        agrees = v.agrees;
        fits = v.fits;
        kept = v.kept;
      })
lay_out fault (note p ∷ ss) l i start le enc once fits =
    let m = measured p i start in
    let v = lay_out fault ss (set_place p m l) i (next_start p i start) le enc once.1 (
      set_place-Fits cbpf_max_words p m l fits
        (measured-le p i start cbpf_max_words (omega (arith, le)))) in
    record {
      shape = v.shape;
      index = v.index;
      agrees = (v.kept p once.0 ∙ noted-set_place_same p m l, v.agrees);
      fits = v.fits;
      kept = λ q h. v.kept q h.1 ∙ noted-set_place q p m l h.0;
    }
lay_out fault (reject ∷ ss) l i start le enc once fits = absurd enc
