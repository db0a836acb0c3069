-- ===== src/Bridge/Sending.antt =====
-- src/tools/conformance_bridge.c: a program that is sent as words is decoded again.
use c_bpf.Base.{
  ℕ, suc, ◌+◌, ◌*◌, ◌/◌, ◌%◌, ◌^◌, ◌<◌, ◌≡◌, refl, ap, true, ◌&&◌, Option, some, none, List, [],
  ◌∷◌, arith, ◌==◌, if◌then◌else◌, ℤ, pos, length, get_elem?,
}
use c_bpf.Ir.{Insn, Opcode, acquire, copy, spill, reload, read, release, br_null, return, other}
use c_bpf.Reference.Events.{IsNamed}
use c_bpf.Bridge.{op_code, opcode_of, is_unsigned, is_opcode, decode_insn, decode, prepend}

-- What the words of an instruction can hold.
pub record IsSendable (x : Insn) : Type 0 where
  pub named : IsNamed x.op
  pub dst : x.dst < 2 ^ 32
  pub src : x.src < 2 ^ 32

-- The four words of an instruction, and the array of a program.
abbrev pub word : ℕ → Option Insn → ℤ
word j none = pos 0
word j (some x) =
    if j == 0
    then pos (op_code x.op)
    else if j == 1
    then pos x.dst
    else if j == 2
    then pos x.src
    else x.imm

unfoldable pub flatten : List Insn → ℕ → ℤ
flatten p w = word (w % 4) (get_elem? p (w / 4))

pub opcode_round : (op : Opcode) → IsNamed op → opcode_of (op_code op) ≡ op
opcode_round acquire n = refl
opcode_round copy n = refl
opcode_round spill n = refl
opcode_round reload n = refl
opcode_round read n = refl
opcode_round release n = refl
opcode_round br_null n = refl
opcode_round return n = refl
opcode_round (other k) n = absurd n

op_code_small : (op : Opcode) → IsNamed op → op_code op < 8
op_code_small acquire n = omega arith
op_code_small copy n = omega arith
op_code_small spill n = omega arith
op_code_small reload n = omega arith
op_code_small read n = omega arith
op_code_small release n = omega arith
op_code_small br_null n = omega arith
op_code_small return n = omega arith
op_code_small (other k) n = absurd n

decode_insn_round :
    (x : Insn)
    → IsSendable x
    → decode_insn (pos (op_code x.op)) (pos x.dst) (pos x.src) x.imm ≡ some x
unfolding decode_insn
decode_insn_round x s =
    rw (guards, small)
      (ap some (fields (opcode_round x.op s.named) (low x.dst s.dst) (low x.src s.src)))
  where
    guards :
        (is_opcode (pos (op_code x.op)) && is_unsigned (pos x.dst) && is_unsigned (pos x.src))
        ≡ true
    guards = ground (arith, op_code_small x.op s.named, s.dst, s.src)

    low : (n : ℕ) → n < 2 ^ 32 → n % 2 ^ 32 ≡ n
    low n h = omega arith

    small : op_code x.op % 2 ^ 32 ≡ op_code x.op
    small = omega (arith, op_code_small x.op s.named)

    fields :
        {op op' : Opcode} {d d' e e' : ℕ}
        → op ≡ op'
        → d ≡ d'
        → e ≡ e'
        → ◌≡◌ {A = Insn}
            (record { op = op; dst = d; src = e; imm = x.imm })
            (record { op = op'; dst = d'; src = e'; imm = x.imm })
    fields p q r = cc

-- The four words at index `i` are those of `x`.
abbrev pub Holds : (ℕ → ℤ) → ℕ → Insn → Type 0
Holds input i x =
    (input (4 * i) ≡ pos (op_code x.op))
    × (input (4 * i + 1) ≡ pos x.dst)
    × (input (4 * i + 2) ≡ pos x.src)
    × (input (4 * i + 3) ≡ x.imm)

pub flatten-Holds :
    (p : List Insn) (i : ℕ) (x : Insn) → get_elem? p i ≡ some x → Holds (flatten p) i x
unfolding flatten
flatten-Holds p i x e = (
  at_word (4 * i) 0 (omega arith) (omega arith),
  at_word (4 * i + 1) 1 (omega arith) (omega arith),
  at_word (4 * i + 2) 2 (omega arith) (omega arith),
  at_word (4 * i + 3) 3 (omega arith) (omega arith),
)
  where
    at_word :
        (w j : ℕ) → w % 4 ≡ j → w / 4 ≡ i → word (w % 4) (get_elem? p (w / 4)) ≡ word j (some x)
    at_word w j q r = rw (q, r, e) refl

decode_insn_at :
    (x : Insn) {a b c d : ℤ}
    → a ≡ pos (op_code x.op)
    → b ≡ pos x.dst
    → c ≡ pos x.src
    → d ≡ x.imm
    → IsSendable x
    → decode_insn a b c d ≡ some x
decode_insn_at x p q r u s = rw (p, q, r, u) (decode_insn_round x s)

prepended :
    {o : Option Insn} {os : Option (List Insn)} (x : Insn) (q : List Insn)
    → o ≡ some x
    → os ≡ some q
    → prepend o os ≡ some (x ∷ q)
prepended x q e f = rw (e, f) refl

pub decode_round :
    (q : List Insn) (i : ℕ) (input : ℕ → ℤ)
    → ((j : ℕ) (x : Insn)
        → get_elem? q j ≡ some x
        → (k : ℕ) → k ≡ i + j
        → Holds input k x × IsSendable x)
    → decode (length q) i input ≡ some q
unfolding decode
decode_round [] i input h = refl
decode_round (x ∷ q) i input h =
    let ((op, dst, src, imm), s) = h 0 x refl i (omega arith) in
    prepended x q (decode_insn_at x op dst src imm s)
      (decode_round q (i + 1) input (λ j y e k m. h (suc j) y e k (omega arith)))
