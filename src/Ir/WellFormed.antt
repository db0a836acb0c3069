-- ===== src/Ir/WellFormed.antt =====
-- src/cbpf.c: what `cbpf_validate` decides, stated without its loop.
use mathlib.Core.Logic.{◌↔◌}
use mathlib.Core.Path.{subst, subst₂}
use c_bpf.Base.{
  ◌||◌, ◌≢◌, ℕ, zero, suc, ◌+◌, ◌-◌, ◌≤◌, ◌<◌, ◌≡◌, refl, ◌⊎◌, inl, inr, true, false, none, some,
  List, [], ◌∷◌, arith, Bool-cases, length, get_elem?, get_elem?_total, ℤ, pos, negsuc, at_most,
  at_least, ltb, ◌==◌, if◌then◌else◌,
}
use c_bpf.Ir.{
  Insn, Opcode, acquire, copy, spill, reload, read, release, br_null, return, other, cbpf_regs,
  cbpf_spills, cbpf_max_insns,
}
use c_bpf.Ir.Validate.{
  Verdict, accepted, rejected, insn_ok, validate_loop, is_return, last_is_return, cbpf_validate,
}

-- The operands of an instruction at index `i` of `n` are in range, and its branch goes forward.
abbrev pub Operands : Opcode → Insn → ℕ → ℕ → Type 0
Operands acquire x i n = (x.dst < cbpf_regs) × ((x.imm ≡ pos 0) ⊎ (x.imm ≡ pos 1))
Operands copy x i n = (x.dst < cbpf_regs) × (x.src < cbpf_regs)
Operands spill x i n = (x.dst < cbpf_spills) × (x.src < cbpf_regs)
Operands reload x i n = (x.dst < cbpf_regs) × (x.src < cbpf_spills)
Operands read x i n = x.dst < cbpf_regs
Operands release x i n = x.dst < cbpf_regs
Operands br_null x i n = (x.dst < cbpf_regs) × ((t : ℕ) × (x.imm ≡ pos t) × (i < t) × (t < n))
Operands return x i n = Unit
Operands (other k) x i n = ⊥

abbrev pub IsInsn : ℕ → ℕ → Insn → Type 0
IsInsn i n x = Operands x.op x i n

pub record IsProgram (p : List Insn) : Type 0 where
  pub nonempty : 0 < length p
  pub bounded : length p ≤ cbpf_max_insns
  pub each : (i : ℕ) (x : Insn) → get_elem? p i ≡ some x → IsInsn i (length p) x
  pub ends : (x : Insn) × (get_elem? p (length p - 1) ≡ some x) × (x.op ≡ return)

branch_sound :
    (v : ℤ) (i n : ℕ)
    → (at_most v i || at_least v n) ≡ false
    → (t : ℕ) × (v ≡ pos t) × (i < t) × (t < n)
branch_sound (pos t) i n h = (t, refl, ground arith, ground arith)
branch_sound (negsuc t) i n h = ground arith

insn_ok_sound : (op : Opcode) (x : Insn) (i n : ℕ) → insn_ok op x i n ≡ true → Operands op x i n
unfolding insn_ok
insn_ok_sound acquire x i n h = ground arith
insn_ok_sound copy x i n h = ground arith
insn_ok_sound spill x i n h = ground arith
insn_ok_sound reload x i n h = ground arith
insn_ok_sound read x i n h = ground arith
insn_ok_sound release x i n h = ground arith
insn_ok_sound br_null x i n h = (ground arith, branch_sound x.imm i n (ground arith))
insn_ok_sound return x i n h = tt
insn_ok_sound (other k) x i n h = ground arith

insn_ok_complete : (op : Opcode) (x : Insn) (i n : ℕ) → Operands op x i n → insn_ok op x i n ≡ true
unfolding insn_ok
insn_ok_complete acquire x i n h = ground arith
insn_ok_complete copy x i n h = ground arith
insn_ok_complete spill x i n h = ground arith
insn_ok_complete reload x i n h = ground arith
insn_ok_complete read x i n h = ground arith
insn_ok_complete release x i n h = ground arith
insn_ok_complete br_null x i n (d, (t, e, lo, hi)) = ground arith
insn_ok_complete return x i n h = refl
insn_ok_complete (other k) x i n h = absurd h

-- The first instruction at which the loop stops, counted from `i`.
abbrev Scanned : List Insn → ℕ → ℕ → Verdict → Type 0
Scanned p i n accepted = (k : ℕ) (x : Insn) → get_elem? p k ≡ some x → IsInsn (i + k) n x
Scanned p i n (rejected j) =
    (k : ℕ) × (j ≡ i + k)
    × ((x : Insn) × (get_elem? p k ≡ some x) × (insn_ok x.op x j n ≡ false))
    × ((l : ℕ) (x : Insn) → l < k → get_elem? p l ≡ some x → IsInsn (i + l) n x)

same_insn : (n : ℕ) {i j : ℕ} {x y : Insn} → i ≡ j → x ≡ y → IsInsn i n x → IsInsn j n y
same_insn n p q h = subst₂ (λ a b. IsInsn a n b) p q h

-- The facts at index `k` of a program with one more instruction in front.
cons-each :
    (P : ℕ → Type 0) (x : Insn) (p : List Insn) (i n : ℕ)
    → IsInsn i n x
    → ((k : ℕ) (y : Insn) → P k → get_elem? p k ≡ some y → IsInsn (i + 1 + k) n y)
    → (k : ℕ) (y : Insn) → (0 < k → P (k - 1))
    → get_elem? (x ∷ p) k ≡ some y
    → IsInsn (i + k) n y
cons-each P x p i n hx rest zero y c h = same_insn n (omega arith) (cc) hx
cons-each P x p i n hx rest (suc k) y c h =
    same_insn n (omega arith) refl
      (rest k y (let e : suc k - 1 ≡ k = omega arith in subst P e (c (omega arith))) h)

cons-Scanned :
    (x : Insn) (p : List Insn) (i n : ℕ) (v : Verdict)
    → IsInsn i n x
    → Scanned p (i + 1) n v
    → Scanned (x ∷ p) i n v
cons-Scanned x p i n accepted hx s =
    λ k y h. cons-each (λ _. Unit) x p i n hx (λ k y _ h. s k y h) k y (λ _. tt) h
cons-Scanned x p i n (rejected j) hx (k, e, bad, before) = (
  suc k,
  omega arith,
  bad,
  λ l y lt h. cons-each (λ l. l < k) x p i n hx before l y (λ pos_l. omega arith) h,
)

validate_loop-Scanned : (p : List Insn) (i n : ℕ) → Scanned p i n (validate_loop p i n)
unfolding validate_loop
validate_loop-Scanned [] i n = λ k x h. ground arith
validate_loop-Scanned (x ∷ p) i n = elim (Bool-cases (insn_ok x.op x i n)) [
  | inl e ↦ rw e (
      cons-Scanned x p i n (validate_loop p (i + 1) n) (insn_ok_sound x.op x i n e)
        (validate_loop-Scanned p (i + 1) n))
  | inr e ↦ rw e (0, omega arith, (x, refl, e), λ l y lt h. absurd (omega arith))
]

-- Why a program that is refused at index `j` is no program.
pub data IsFaulty (p : List Insn) (j : ℕ) : Type 0 where
  size : (length p ≡ 0) ⊎ (cbpf_max_insns < length p) → j ≡ 0 → IsFaulty p j
  operand :
      (x : Insn)
      → get_elem? p j ≡ some x
      → ¬ IsInsn j (length p) x
      → ((l : ℕ) (y : Insn) → l < j → get_elem? p l ≡ some y → IsInsn l (length p) y)
      → IsFaulty p j
  ending :
      (x : Insn)
      → j ≡ length p - 1
      → get_elem? p j ≡ some x
      → x.op ≢ return
      → ((l : ℕ) (y : Insn) → get_elem? p l ≡ some y → IsInsn l (length p) y)
      → IsFaulty p j

abbrev pub Judges : List Insn → Verdict → Type 0
Judges p accepted = IsProgram p
Judges p (rejected j) = IsFaulty p j

insn_ok-false : (x : Insn) (i n : ℕ) → insn_ok x.op x i n ≡ false → ¬ IsInsn i n x
insn_ok-false x i n e h = cc (e, insn_ok_complete x.op x i n h)

is_return_iff : (op : Opcode) → (is_return op ≡ true) ↔ (op ≡ return)
unfolding is_return
is_return_iff return = (λ _. refl, λ _. refl)
is_return_iff acquire = ground arith
is_return_iff _ = ground arith

from_zero : (j n : ℕ) (x : Insn) → IsInsn (0 + j) n x → IsInsn j n x
from_zero j n x h = same_insn n (omega arith) refl h

judge_end :
    (p : List Insn)
    → 0 < length p
    → length p ≤ cbpf_max_insns
    → ((l : ℕ) (y : Insn) → get_elem? p l ≡ some y → IsInsn l (length p) y)
    → Judges p (if last_is_return p then accepted else rejected (length p - 1))
unfolding last_is_return
judge_end p lo hi each =
    let (x, e) = get_elem?_total p (length p - 1) (omega arith) in
    rw (e, last_is_return)
      (elim (Bool-cases (is_return x.op)) [
        | inl r ↦ rw r (record {
          nonempty = lo;
          bounded = hi;
          each = each;
          ends = (x, e, (is_return_iff x.op).0 r);
        })
        | inr r ↦ rw r (ending x refl e (λ q. cc (r, (is_return_iff x.op).1 q)) each)
      ])

judge_scan :
    (p : List Insn) (v : Verdict)
    → 0 < length p
    → length p ≤ cbpf_max_insns
    → Scanned p 0 (length p) v
    → Judges p (elim v [
      | rejected i ↦ rejected i
      | accepted ↦ if last_is_return p then accepted else rejected (length p - 1)
    ])
judge_scan p accepted lo hi s = judge_end p lo hi (λ l y h. from_zero l _ y (s l y h))
judge_scan p (rejected j) lo hi (k, e, (x, at_k, bad), before) =
    operand x (subst (λ i. get_elem? p i ≡ some x) (let e' : k ≡ j = omega arith in e') at_k)
      (insn_ok-false x j (length p) bad) (λ l y lt h. from_zero l _ y (before l y (omega arith) h))

-- The verdict of `cbpf_validate` is accepted for a well-formed program, and otherwise it names the
-- index of a fault: 0 for a length out of bounds, the first instruction with bad operands, or the
-- last instruction where it is no RETURN.
pub validate-Judges : (p : List Insn) → Judges p (cbpf_validate (some p))
unfolding cbpf_validate
validate-Judges p = elim (Bool-cases (length p == 0 || ltb cbpf_max_insns (length p))) [
  | inl e ↦ rw e (size (ground arith) refl)
  | inr e ↦ rw e (
      judge_scan p (validate_loop p 0 (length p)) (ground arith) (ground arith)
        (validate_loop-Scanned p 0 (length p)))
]

IsFaulty-not-IsProgram : (p : List Insn) (j : ℕ) → IsFaulty p j → ¬ IsProgram p
IsFaulty-not-IsProgram p j (size (inl e) z) v = omega (arith, v.nonempty)
IsFaulty-not-IsProgram p j (size (inr e) z) v = omega (arith, v.bounded)
IsFaulty-not-IsProgram p j (operand x e bad before) v = bad (v.each j x e)
IsFaulty-not-IsProgram p j (ending x q e bad all) v =
    let (y, e', r) = v.ends in bad (let same : x ≡ y = cc in rw same r)

-- Validation accepts a program exactly if it is well formed.
pub validate_iff : (p : List Insn) → (cbpf_validate (some p) ≡ accepted) ↔ IsProgram p
validate_iff p =
    (λ e. subst (Judges p) e (validate-Judges p), λ v. complete (cbpf_validate (some p)) refl v)
  where
    complete : (w : Verdict) → cbpf_validate (some p) ≡ w → IsProgram p → w ≡ accepted
    complete accepted e v = refl
    complete (rejected j) e v =
        absurd (IsFaulty-not-IsProgram p j (subst (Judges p) e (validate-Judges p)) v)

pub validate_null : cbpf_validate none ≡ rejected 0
unfolding cbpf_validate
validate_null = refl
