-- ===== src/Bridge/Refusal.antt =====
-- src/tools/conformance_bridge.c: when the bridge refuses its input, and that it answers otherwise.
use mathlib.Core.Path.{subst}
use c_bpf.Base.{
  ℕ, zero, suc, ◌+◌, ◌*◌, ◌≤◌, ◌<◌, ◌≡◌, ◌↔◌, refl, sym, ◌⊎◌, inl, inr, Bool, true, false, ◌&&◌,
  ◌||◌, Bool-cases, Option, some, none, List, arith, ◌==◌, ltb, if◌then◌else◌, ℤ, pos, negsuc,
  to_word, ◌^◌,
}
use c_bpf.Ir.{Insn, Result, cbpf_max_insns, cbpf_max_events}
use c_bpf.Reference.{cbpf_run}
use c_bpf.Reference.Cleanup.{IsSettled}
use c_bpf.Reference.Run.{run-IsSettled}
use c_bpf.Bridge.{
  is_unsigned, is_opcode, opcode_of, decode_insn, decode, prepend, write_result, report,
  output_words, cbpf_conformance_run,
}

-- The number `x` is one of 0 to `n` - 1.
abbrev pub IsBelow : ℕ → ℤ → Type 0
IsBelow n x = (k : ℕ) × (x ≡ pos k) × (k < n)

-- The words of instruction `i`: one of the eight opcodes, and two operands of 32 bits.
abbrev pub InRange : (ℕ → ℤ) → ℕ → Type 0
InRange input i =
    IsBelow 8 (input (4 * i))
    × IsBelow (2 ^ 32) (input (4 * i + 1))
    × IsBelow (2 ^ 32) (input (4 * i + 2))

number : {n k : ℕ} → pos n ≡ pos k → n ≡ k
number e = cc

is_opcode-IsBelow : (x : ℤ) → (is_opcode x ≡ true) ↔ IsBelow 8 x
is_opcode-IsBelow (pos n) =
    (λ h. (n, refl, ground arith), λ (k, e, lt). let same : n ≡ k = number e in ground arith)
is_opcode-IsBelow (negsuc n) = (λ h. cc, λ (k, e, lt). cc)

is_unsigned-IsBelow : (x : ℤ) → (is_unsigned x ≡ true) ↔ IsBelow (2 ^ 32) x
is_unsigned-IsBelow (pos n) =
    (λ h. (n, refl, ground arith), λ (k, e, lt). let same : n ≡ k = number e in ground arith)
is_unsigned-IsBelow (negsuc n) = (λ h. cc, λ (k, e, lt). cc)

-- The test of the code on the words of instruction `i`.
abbrev in_range : (ℕ → ℤ) → ℕ → Bool
in_range input i =
    is_opcode (input (4 * i)) && is_unsigned (input (4 * i + 1)) && is_unsigned (input (4 * i + 2))

in_range-InRange : (input : ℕ → ℤ) (i : ℕ) → (in_range input i ≡ true) ↔ InRange input i
in_range-InRange input i = (
  λ h. (
    (is_opcode-IsBelow (input (4 * i))).0 (ground arith),
    (is_unsigned-IsBelow (input (4 * i + 1))).0 (ground arith),
    (is_unsigned-IsBelow (input (4 * i + 2))).0 (ground arith),
  ),
  λ (x, y, z).
      let a = (is_opcode-IsBelow (input (4 * i))).1 x in
      let b = (is_unsigned-IsBelow (input (4 * i + 1))).1 y in
      let c = (is_unsigned-IsBelow (input (4 * i + 2))).1 z in ground (arith, a, b, c),
)

-- `k` instructions from `i` are decoded, or one of them is out of range.
abbrev Decodes : (ℕ → ℤ) → ℕ → ℕ → Option (List Insn) → Type 0
Decodes input i k (some p) = (j : ℕ) → i ≤ j → j < i + k → in_range input j ≡ true
Decodes input i k none = (j : ℕ) × (i ≤ j) × (j < i + k) × (in_range input j ≡ false)

decode_insn-some :
    (a b c d : ℤ)
    → (is_opcode a && is_unsigned b && is_unsigned c) ≡ true
    → (x : Insn) × (decode_insn a b c d ≡ some x)
unfolding decode_insn
decode_insn-some a b c d e = (
  record { op = opcode_of (to_word 32 a); dst = to_word 32 b; src = to_word 32 c; imm = d },
  rw e refl,
)

decode_insn-none :
    (a b c d : ℤ)
    → (is_opcode a && is_unsigned b && is_unsigned c) ≡ false
    → decode_insn a b c d ≡ none
unfolding decode_insn
decode_insn-none a b c d e = rw e refl

prepend-Decodes :
    (input : ℕ → ℤ) (i k : ℕ) (x : Insn) (rest : Option (List Insn))
    → in_range input i ≡ true
    → Decodes input (i + 1) k rest
    → Decodes input i (suc k) (prepend (some x) rest)
prepend-Decodes input i k x none e (j, lo, hi, bad) = (j, omega arith, omega arith, bad)
prepend-Decodes input i k x (some p) e h = λ j lo hi. elim (Bool-cases (j == i)) [
  | inl q ↦ let same : i ≡ j = ground arith in subst (λ n. in_range input n ≡ true) same e
  | inr q ↦ h j (ground arith) (omega arith)
]

decode-Decodes : (k i : ℕ) (input : ℕ → ℤ) → Decodes input i k (decode k i input)
unfolding decode
decode-Decodes zero i input = λ j lo hi. absurd (omega arith)
decode-Decodes (suc k) i input =
    judged (decode k (i + 1) input) (decode-Decodes k (i + 1) input) (Bool-cases (in_range input i))
  where
    here : Option (List Insn) → Option (List Insn)
    here rest =
        prepend
          (decode_insn (input (4 * i)) (input (4 * i + 1)) (input (4 * i + 2)) (input (4 * i + 3)))
          rest

    judged :
        (rest : Option (List Insn))
        → Decodes input (i + 1) k rest
        → (in_range input i ≡ true) ⊎ (in_range input i ≡ false)
        → Decodes input i (suc k) (here rest)
    judged rest h (inl e) =
        let (x, q) =
          decode_insn-some (input (4 * i)) (input (4 * i + 1)) (input (4 * i + 2))
            (input (4 * i + 3)) e in
        subst (λ o. Decodes input i (suc k) (prepend o rest)) (sym q)
          (prepend-Decodes input i k x rest e h)
    judged rest h (inr e) =
        subst (λ o. Decodes input i (suc k) (prepend o rest))
          (sym (
            decode_insn-none (input (4 * i)) (input (4 * i + 1)) (input (4 * i + 2))
              (input (4 * i + 3)) e))
          (i, omega arith, omega arith, e)

-- Of the interpreter's own result nothing is refused.
report_answers : (p : List Insn) → (words : List ℤ) × (report cbpf_run (some p) ≡ some words)
unfolding report
report_answers p =
    let (r, eq, settled) = run-IsSettled (some p) in
    (write_result r, written (cbpf_run (some p)) r eq settled)
  where
    written :
        (o : Option Result) (r : Result)
        → o ≡ some r
        → IsSettled cbpf_max_insns r
        → (elim o [
          | none ↦ none
          | some r ↦ if ltb cbpf_max_events r.event_count then none else some (write_result r)
        ])
          ≡ some (write_result r)
    written o r eq settled = rw (eq, small) refl
      where
        small : ltb cbpf_max_events r.event_count ≡ false
        small = ground (arith, settled.events)

refused : report cbpf_run none ≡ none
unfolding report
refused = refl

-- The cases by the code's own tests.
tested_cases :
    (input : ℕ → ℤ) (count capacity : ℕ)
    → ((count ≤ cbpf_max_insns)
        × (output_words ≤ capacity)
        × ((j : ℕ) → j < count → in_range input j ≡ true)
        × ((words : List ℤ) × (cbpf_conformance_run cbpf_run input count capacity ≡ some words)))
      ⊎ (((cbpf_max_insns < count)
            ⊎ (capacity < output_words)
            ⊎ ((j : ℕ) × (j < count) × (in_range input j ≡ false)))
          × (cbpf_conformance_run cbpf_run input count capacity ≡ none))
unfolding cbpf_conformance_run
tested_cases input count capacity = elim (Bool-cases guard) [
  | inl e ↦ inr (
    elim (Bool-cases (ltb cbpf_max_insns count)) [
      | inl q ↦ inl (ground arith)
      | inr q ↦ inr (inl (ground arith))
    ],
    rw e refl,
  )
  | inr e ↦ decoded e (decode count 0 input) (decode-Decodes count 0 input)
]
  where
    guard : Bool
    guard = ltb cbpf_max_insns count || ltb capacity output_words

    decoded :
        guard ≡ false
        → (o : Option (List Insn)) → Decodes input 0 count o
        → ((count ≤ cbpf_max_insns)
            × (output_words ≤ capacity)
            × ((j : ℕ) → j < count → in_range input j ≡ true)
            × ((words : List ℤ) × ((if guard then none else report cbpf_run o) ≡ some words)))
          ⊎ (((cbpf_max_insns < count)
                ⊎ (capacity < output_words)
                ⊎ ((j : ℕ) × (j < count) × (in_range input j ≡ false)))
              × ((if guard then none else report cbpf_run o) ≡ none))
    decoded e none (j, lo, hi, bad) = inr (inr (inr (j, omega arith, bad)), rw e refused)
    decoded e (some p) h =
        let (words, q) = report_answers p in
        inl (ground arith, ground arith, (λ j l. h j (omega arith) (omega arith)), (words, rw e q))

-- Over `cbpf_run`, the bridge returns words where there are at most 64 instructions, the capacity is
-- 345 words or more, and every instruction has one of the eight opcodes 0 to 7 and two operands from
-- 0 to 2^32 - 1; where one of these fails it returns 0.
pub conformance_run_cases :
    (input : ℕ → ℤ) (count capacity : ℕ)
    → ((count ≤ 64)
        × (345 ≤ capacity)
        × ((j : ℕ) → j < count → InRange input j)
        × ((words : List ℤ) × (cbpf_conformance_run cbpf_run input count capacity ≡ some words)))
      ⊎ (((64 < count) ⊎ (capacity < 345) ⊎ ((j : ℕ) × (j < count) × ¬ InRange input j))
          × (cbpf_conformance_run cbpf_run input count capacity ≡ none))
conformance_run_cases input count capacity = elim (tested_cases input count capacity) [
  | inl (few, room, each, words) ↦
      inl (few, room, (λ j lt. (in_range-InRange input j).0 (each j lt)), words)
  | inr (inl many, e) ↦ inr (inl many, e)
  | inr (inr (inl less), e) ↦ inr (inr (inl less), e)
  | inr (inr (inr (j, lt, bad)), e) ↦
      inr (inr (inr (j, lt, λ r. let good = (in_range-InRange input j).1 r in cc (good, bad))), e)
]
