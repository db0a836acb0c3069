-- ===== src/Jit/Emit/Shape.antt =====
-- linux/ownership/cbpf_jit.c: how many words the parts of the code take, and what they note.
use c_bpf.Base.{
  ℕ, ◌+◌, ◌*◌, ◌≤◌, ◌<◌, ◌≡◌, ◌≢◌, List, [], ◌∷◌, ◌++◌, arith, length, Bool-cases, inl, inr,
}
use c_bpf.Jit.{Code, mov_x, mov_k, stx_dw, ldx_dw, jeq_k, call, exit, other, BpfInsn}
use c_bpf.Jit.Admit.{Operation}
use c_bpf.Jit.Emit.{Place, at_pc, restricted, executive, sized, Stmt, put, note, reject}
use c_bpf.Jit.Emit.Passes.{count, Notes, Distinct}
use c_bpf.Jit.Emit.Templates.{
  Encoder, Config, clear_from, clear_registers, saves, entry, scrub, restores, leave, prologue,
  template, body, epilogue, statements,
}

pub count-append : (xs ys : List Stmt) → count (xs ++ ys) ≡ count xs + count ys
unfolding count
count-append [] ys = omega arith
count-append (put f ∷ xs) ys = omega (arith, count-append xs ys)
count-append (note p ∷ xs) ys = count-append xs ys
count-append (reject ∷ xs) ys = count-append xs ys

Notes-append :
    (P : Place → Type 0) (xs ys : List Stmt) → Notes P xs → Notes P ys → Notes P (xs ++ ys)
Notes-append P [] ys h k = k
Notes-append P (put f ∷ xs) ys h k = Notes-append P xs ys h k
Notes-append P (note p ∷ xs) ys h k = (h.0, Notes-append P xs ys h.1 k)
Notes-append P (reject ∷ xs) ys h k = Notes-append P xs ys h k

Notes-mono :
    (P Q : Place → Type 0) (xs : List Stmt) → ((p : Place) → P p → Q p) → Notes P xs → Notes Q xs
Notes-mono P Q [] f h = tt
Notes-mono P Q (put g ∷ xs) f h = Notes-mono P Q xs f h
Notes-mono P Q (note p ∷ xs) f h = (f p h.0, Notes-mono P Q xs f h.1)
Notes-mono P Q (reject ∷ xs) f h = Notes-mono P Q xs f h

Distinct-append :
    (P Q : Place → Type 0) (xs ys : List Stmt)
    → ((p q : Place) → P p → Q q → p ≢ q)
    → Distinct xs
    → Distinct ys
    → Notes P xs
    → Notes Q ys
    → Distinct (xs ++ ys)
Distinct-append P Q [] ys f a b h k = b
Distinct-append P Q (put g ∷ xs) ys f a b h k = Distinct-append P Q xs ys f a b h k
Distinct-append P Q (note p ∷ xs) ys f a b h k = (
  Notes-append (λ q. p ≢ q) xs ys a.0 (Notes-mono Q (λ q. p ≢ q) ys (λ q kq. f p q h.0 kq) k),
  Distinct-append P Q xs ys f a.1 b h.1 k,
)
Distinct-append P Q (reject ∷ xs) ys f a b h k = Distinct-append P Q xs ys f a b h k

-- Nothing is noted.
abbrev Silent : List Stmt → Type 0
Silent ss = Notes (λ _. ⊥) ss

Silent-Notes : (P : Place → Type 0) (xs : List Stmt) → Silent xs → Notes P xs
Silent-Notes P xs h = Notes-mono (λ _. ⊥) P xs (λ p bad. absurd bad) h

Silent-Distinct : (xs : List Stmt) → Silent xs → Distinct xs
Silent-Distinct [] h = tt
Silent-Distinct (put f ∷ xs) h = Silent-Distinct xs h
Silent-Distinct (note p ∷ xs) h = absurd (h.0)
Silent-Distinct (reject ∷ xs) h = Silent-Distinct xs h

Silent-append :
    (P : Place → Type 0) (xs ys : List Stmt) → Silent xs → Distinct ys → Distinct (xs ++ ys)
Silent-append P xs ys h k =
    Distinct-append (λ _. ⊥) (λ _. Unit) xs ys (λ p q bad _. absurd bad) (Silent-Distinct xs h) k h
      (all_notes ys)
  where
    all_notes : (zs : List Stmt) → Notes (λ _. Unit) zs
    all_notes [] = tt
    all_notes (put f ∷ zs) = all_notes zs
    all_notes (note p ∷ zs) = (tt, all_notes zs)
    all_notes (reject ∷ zs) = all_notes zs

module _ (e : Encoder) (k : Config) where
  prologue-Silent : Silent (prologue e k)
  unfolding prologue saves entry clear_registers clear_from
  prologue-Silent = elim (Bool-cases k.bti) [
    | inl b ↦ elim (Bool-cases k.ptr_auth) [ inl a ↦ rw (a, b) tt | inr a ↦ rw (a, b) tt ]
    | inr b ↦ elim (Bool-cases k.ptr_auth) [ inl a ↦ rw (a, b) tt | inr a ↦ rw (a, b) tt ]
  ]

  prologue-count : count (prologue e k) ≤ 64
  unfolding prologue saves entry clear_registers clear_from count
  prologue-count = elim (Bool-cases k.bti) [
    | inl b ↦ elim (Bool-cases k.ptr_auth) [
      | inl a ↦ rw (a, b) (omega arith)
      | inr a ↦ rw (a, b) (omega arith)
    ]
    | inr b ↦ elim (Bool-cases k.ptr_auth) [
      | inl a ↦ rw (a, b) (omega arith)
      | inr a ↦ rw (a, b) (omega arith)
    ]
  ]

  -- The places of the epilogue.
  abbrev IsExit : Place → Type 0
  IsExit (at_pc n) = ⊥
  IsExit _ = Unit

  epilogue-Notes : Notes IsExit (epilogue e k)
  unfolding epilogue scrub restores leave clear_registers clear_from
  epilogue-Notes = elim (Bool-cases k.ptr_auth) [
    | inl a ↦ rw a (tt, (tt, (tt, tt)))
    | inr a ↦ rw a (tt, (tt, (tt, tt)))
  ]

  epilogue-count : (0 < count (epilogue e k)) × (count (epilogue e k) ≤ 64)
  unfolding epilogue scrub restores leave clear_registers clear_from count
  epilogue-count = elim (Bool-cases k.ptr_auth) [
    | inl a ↦ rw a (omega arith)
    | inr a ↦ rw a (omega arith)
  ]

  epilogue-Distinct : Distinct (epilogue e k)
  unfolding epilogue scrub restores leave clear_registers clear_from
  epilogue-Distinct = elim (Bool-cases k.ptr_auth) [
    | inl a ↦ rw a ((λ q. cc, (λ q. cc, tt)), ((λ q. cc, tt), (tt, tt)))
    | inr a ↦ rw a ((λ q. cc, (λ q. cc, tt)), ((λ q. cc, tt), (tt, tt)))
  ]

  -- The starts of instructions from `pc` on.
  abbrev From : ℕ → Place → Type 0
  From pc (at_pc n) = pc ≤ n
  From pc _ = ⊥

  template-Silent :
      (op : Operation) (c : Code) (i : BpfInsn) (pc : ℕ) → Silent (template e op c i pc)
  unfolding template
  template-Silent op mov_x i pc = tt
  template-Silent op mov_k i pc = tt
  template-Silent op stx_dw i pc = tt
  template-Silent op ldx_dw i pc = tt
  template-Silent op jeq_k i pc = tt
  template-Silent op call i pc = tt
  template-Silent op exit i pc = tt
  template-Silent op (other n) i pc = tt

  template-count :
      (op : Operation) (c : Code) (i : BpfInsn) (pc : ℕ) → count (template e op c i pc) ≤ 5
  unfolding template count
  template-count op mov_x i pc = omega arith
  template-count op mov_k i pc = omega arith
  template-count op stx_dw i pc = omega arith
  template-count op ldx_dw i pc = omega arith
  template-count op jeq_k i pc = omega arith
  template-count op call i pc = omega arith
  template-count op exit i pc = omega arith
  template-count op (other n) i pc = omega arith

  From-mono : (pc : ℕ) (p : Place) → From (pc + 1) p → From pc p
  From-mono pc (at_pc n) h = omega (arith, h)
  From-mono pc restricted h = h
  From-mono pc executive h = h
  From-mono pc sized h = h

  From-apart : (pc : ℕ) (p : Place) → From (pc + 1) p → at_pc pc ≢ p
  From-apart pc (at_pc n) h q = let same : pc ≡ n = cc in omega (arith, h, same)
  From-apart pc restricted h q = h
  From-apart pc executive h q = h
  From-apart pc sized h q = h

  body-Notes :
      (ops : ℕ → Operation) (is : List BpfInsn) (pc : ℕ) → Notes (From pc) (body e ops is pc)
  unfolding body
  body-Notes ops [] pc = (omega arith, tt)
  body-Notes ops (i ∷ is) pc = (
    (let z : pc ≤ pc = omega arith in z),
    Notes-append (From pc) (template e (ops pc) i.code i pc) (body e ops is (pc + 1))
        (Silent-Notes (From pc) (template e (ops pc) i.code i pc)
          (template-Silent (ops pc) i.code i pc))
        (Notes-mono (From (pc + 1)) (From pc) (body e ops is (pc + 1)) (From-mono pc)
          (body-Notes ops is (pc + 1))),
  )

  body-Distinct : (ops : ℕ → Operation) (is : List BpfInsn) (pc : ℕ) → Distinct (body e ops is pc)
  unfolding body
  body-Distinct ops [] pc = (tt, tt)
  body-Distinct ops (i ∷ is) pc =
      let silent = template-Silent (ops pc) i.code i pc in
      (
        Notes-append (λ q. at_pc pc ≢ q) (template e (ops pc) i.code i pc) (body e ops is (pc + 1))
            (Silent-Notes (λ q. at_pc pc ≢ q) (template e (ops pc) i.code i pc) silent)
            (Notes-mono (From (pc + 1)) (λ q. at_pc pc ≢ q) (body e ops is (pc + 1)) (From-apart pc)
              (body-Notes ops is (pc + 1))),
        Silent-append (λ _. Unit) (template e (ops pc) i.code i pc) (body e ops is (pc + 1)) silent
            (body-Distinct ops is (pc + 1)),
      )

  body-count :
      (ops : ℕ → Operation) (is : List BpfInsn) (pc : ℕ) → count (body e ops is pc) ≤ 5 * length is
  unfolding body count
  body-count ops [] pc = omega arith
  body-count ops (i ∷ is) pc = omega (
    arith,
    count-append (template e (ops pc) i.code i pc) (body e ops is (pc + 1)),
    template-count (ops pc) i.code i pc,
    body-count ops is (pc + 1),
  )

  -- Each place of the code is noted once.
  pub statements-Distinct :
      (ops : ℕ → Operation) (p : List BpfInsn) → Distinct (statements e k ops p)
  unfolding statements
  statements-Distinct ops p =
      Silent-append (λ _. Unit) (prologue e k) (body e ops p 0 ++ epilogue e k) prologue-Silent
        (Distinct-append (From 0) IsExit (body e ops p 0) (epilogue e k) apart
          (body-Distinct ops p 0) epilogue-Distinct (body-Notes ops p 0) epilogue-Notes)
    where
      apart : (p q : Place) → From 0 p → IsExit q → p ≢ q
      apart (at_pc n) (at_pc m) a b = absurd b
      apart (at_pc n) restricted a b = λ h. cc
      apart (at_pc n) executive a b = λ h. cc
      apart (at_pc n) sized a b = λ h. cc
      apart restricted q a b = absurd a
      apart executive q a b = absurd a
      apart sized q a b = absurd a

  -- The code of a program of 64 instructions takes less than half of the words there are.
  pub statements-count :
      (ops : ℕ → Operation) (p : List BpfInsn)
      → length p ≤ 64
      → (0 < count (statements e k ops p)) × (count (statements e k ops p) ≤ 512)
  unfolding statements
  statements-count ops p h =
      let a = count-append (prologue e k) (body e ops p 0 ++ epilogue e k) in
      let b = count-append (body e ops p 0) (epilogue e k) in
      (
        omega (arith, a, b, epilogue-count.0),
        omega (arith, a, b, epilogue-count.1, prologue-count, body-count ops p 0, h),
      )
