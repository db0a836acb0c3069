-- ===== src/Jit/Emit/Writing.antt =====
-- linux/ownership/cbpf_jit.c, `generate` with an image: the second pass and the third.
use c_bpf.Base.{
  ℕ, ◌+◌, ◌≤◌, ◌<◌, ◌≡◌, ◌≢◌, refl, ap, ◌∙◌, Bool, true, false, some, List, [], ◌∷◌, arith, ◌==◌,
  leb, store, length,
}
use c_bpf.Jit.Emit.{
  cbpf_max_words, Layout, Emitter, beyond, deposit, word, Place, noted, measured, next_start,
  note_place, Stmt, put, note, reject, perform, perform_all,
}
use c_bpf.Jit.Emit.Passes.{count, listing, Agrees, Fits, Encodes, at}

-- The words from index `i` on.
abbrev pub put_words : ℕ → List ℕ → (ℕ → ℕ) → ℕ → ℕ
put_words i [] a = a
put_words i (w ∷ ws) a = put_words (i + 1) ws (store a i w)

abbrev pub Holds : (ℕ → ℕ) → ℕ → List ℕ → Type 0
Holds a i [] = Unit
Holds a i (w ∷ ws) = (a i ≡ w) × Holds a (i + 1) ws

put_words-below : (i : ℕ) (ws : List ℕ) (a : ℕ → ℕ) (j : ℕ) → j < i → put_words i ws a j ≡ a j
put_words-below i [] a j lt = refl
put_words-below i (w ∷ ws) a j lt =
    let apart : (j == i) ≡ false = ground arith in
    put_words-below (i + 1) ws (store a i w) j (omega (arith, lt)) ∙ rw apart refl

pub put_words-Holds : (i : ℕ) (ws : List ℕ) (a : ℕ → ℕ) → Holds (put_words i ws a) i ws
put_words-Holds i [] a = tt
put_words-Holds i (w ∷ ws) a =
    let here : (i == i) ≡ true = ground arith in
    (
      put_words-below (i + 1) ws (store a i w) i (omega arith) ∙ rw here refl,
      put_words-Holds (i + 1) ws (store a i w),
    )

pub length-listing : (l : Layout) (ss : List Stmt) (i : ℕ) → length (listing l ss i) ≡ count ss
unfolding listing count
length-listing l [] i = refl
length-listing l (put f ∷ ss) i = omega (arith, length-listing l ss (i + 1))
length-listing l (note p ∷ ss) i = length-listing l ss i
length-listing l (reject ∷ ss) i = length-listing l ss i

-- The end `d` of a pass over the image: it has not failed, and the image is `a`.
pub record Ends (l : Layout) (a : ℕ → ℕ) (i words : ℕ) (check : Bool) (d : Emitter) : Type 0 where
  pub end : (start : ℕ) × (d ≡ at l (some a) i words start check)

word_written :
    (fault w : ℕ) (l : Layout) (a : ℕ → ℕ) (i words start : ℕ)
    → i < words
    → words ≤ cbpf_max_words
    → w ≢ fault
    → word fault w (at l (some a) i words start false)
      ≡ at l (some (store a i w)) (i + 1) words start false
unfolding word beyond deposit
word_written fault w l a i words start lt le ne =
    let small : leb cbpf_max_words i ≡ false = ground arith in
    let inside : leb words i ≡ false = ground arith in
    let apart : (w == fault) ≡ false = ground arith in rw (small, inside, apart) refl

word_checked :
    (fault w : ℕ) (l : Layout) (a : ℕ → ℕ) (i words start : ℕ)
    → i < words
    → words ≤ cbpf_max_words
    → w ≢ fault
    → a i ≡ w
    → word fault w (at l (some a) i words start true) ≡ at l (some a) (i + 1) words start true
unfolding word beyond deposit
word_checked fault w l a i words start lt le ne e =
    let small : leb cbpf_max_words i ≡ false = ground arith in
    let inside : leb words i ≡ false = ground arith in
    let apart : (w == fault) ≡ false = ground arith in
    let same : (a i == w) ≡ true = ground arith in rw (small, inside, apart, same) refl

note_agrees :
    (p : Place) (l : Layout) (a : ℕ → ℕ) (i words start : ℕ) (check : Bool)
    → noted p l ≡ measured p i start
    → note_place p (at l (some a) i words start check)
      ≡ at l (some a) i words (next_start p i start) check
unfolding note_place
note_agrees p l a i words start check e =
    let same : (noted p l == measured p i start) ≡ true = ground arith in rw same refl

-- The second pass writes the listing of the layout.
pub write_all :
    (fault : ℕ) (ss : List Stmt) (l : Layout) (a : ℕ → ℕ) (i words start : ℕ)
    → i + count ss ≤ words
    → words ≤ cbpf_max_words
    → Encodes fault cbpf_max_words ss
    → Fits cbpf_max_words l
    → Agrees l ss i start
    → Ends l
        (put_words i (listing l ss i) a)
        (i + count ss)
        words
        false
        (perform_all fault ss (at l (some a) i words start false))
unfolding perform_all perform count listing
write_all fault [] l a i words start le top enc fits ok = record {
  end = (start, let z : i ≡ i + 0 = omega arith in ap (λ k. at l (some a) k words start false) z);
}
write_all fault (put f ∷ ss) l a i words start le top enc fits ok =
    let v =
      write_all fault ss l (store a i (f l i)) (i + 1) words start (omega (arith, le)) top enc.1
        fits ok in
    let shift : i + 1 + count ss ≡ i + (count ss + 1) = omega arith in
    rw
      (word_written fault (f l i) l a i words start (omega (arith, le)) top
        (enc.0 l i fits (omega (arith, le, top))))
      (record {
        end = (
          v.end.0,
          v.end.1
              ∙ ap
                  (λ k.
                    at l (some (put_words (i + 1) (listing l ss (i + 1)) (store a i (f l i)))) k
                      words v.end.0 false)
                  shift,
        );
      })
write_all fault (note p ∷ ss) l a i words start le top enc fits ok =
    rw (note_agrees p l a i words start false ok.0)
      (write_all fault ss l a i words (next_start p i start) le top enc fits ok.1)
write_all fault (reject ∷ ss) l a i words start le top enc fits ok = absurd enc

-- The third pass finds it.
pub check_all :
    (fault : ℕ) (ss : List Stmt) (l : Layout) (a : ℕ → ℕ) (i words start : ℕ)
    → i + count ss ≤ words
    → words ≤ cbpf_max_words
    → Encodes fault cbpf_max_words ss
    → Fits cbpf_max_words l
    → Agrees l ss i start
    → Holds a i (listing l ss i)
    → Ends l a (i + count ss) words true (perform_all fault ss (at l (some a) i words start true))
unfolding perform_all perform count listing
check_all fault [] l a i words start le top enc fits ok h = record {
  end = (start, let z : i ≡ i + 0 = omega arith in ap (λ k. at l (some a) k words start true) z);
}
check_all fault (put f ∷ ss) l a i words start le top enc fits ok h =
    let v = check_all fault ss l a (i + 1) words start (omega (arith, le)) top enc.1 fits ok h.1 in
    let shift : i + 1 + count ss ≡ i + (count ss + 1) = omega arith in
    rw
      (word_checked fault (f l i) l a i words start (omega (arith, le)) top
        (enc.0 l i fits (omega (arith, le, top))) h.0)
      (record { end = (v.end.0, v.end.1 ∙ ap (λ k. at l (some a) k words v.end.0 true) shift) })
check_all fault (note p ∷ ss) l a i words start le top enc fits ok h =
    rw (note_agrees p l a i words start true ok.0)
      (check_all fault ss l a i words (next_start p i start) le top enc fits ok.1 h)
check_all fault (reject ∷ ss) l a i words start le top enc fits ok h = absurd enc
