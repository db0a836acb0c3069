-- ===== src/Jit/Termination.antt =====
-- linux/ownership/cbpf_jit.c: a run of a program that `admit` accepts comes to an exit.
use c_bpf.Base.{
  ℕ, zero, suc, ◌-◌, ◌≤◌, ◌≡◌, refl, Option, none, some, List, arith, length, get_elem?,
  get_elem?-lt,
}
use c_bpf.Jit.{BpfInsn}
use c_bpf.Jit.Admit.{Linkage, Table, admit, admitted}
use c_bpf.Jit.Execution.{
  Outcome, next, exits, stuck, Answer, State, execute, cleared, Reaches, here, there,
}
use c_bpf.Jit.Soundness.{Proceeds, admit-Proceeds}

-- A run of at most `f` instructions from `pc`, in which the gate called at a PC answers by `answer`:
-- the number with which it exits, or nothing where it is stuck or has not ended.
unfoldable pub run : ℕ → Linkage → List BpfInsn → (ℕ → Answer) → ℕ → State → Option ℕ
unfolding execute
run zero l p answer pc s = none
run (suc f) l p answer pc s = elim (get_elem? p pc) [
  | none ↦ none
  | some i ↦ elim (execute l (answer pc) i.code i pc s) [
    | next n s' ↦ run f l p answer n s'
    | exits v ↦ some v
    | stuck ↦ none
  ]
]

-- With as much fuel as the program has instructions, a run from cleared registers of a program that
-- `admit` accepts ends with a number, whatever the gates answer.
pub admit-run :
    (l : Linkage) (p : List BpfInsn) (T : Table) (answer : ℕ → Answer)
    → admit l p ≡ admitted T
    → (v : ℕ) × (run (length p) l p answer 0 cleared ≡ some v)
unfolding run execute
admit-run l p T answer e = go (length p) 0 cleared (omega arith) here
  where
    onward :
        (f pc : ℕ) (s : State) (i : BpfInsn)
        → length p - pc ≤ suc f
        → Reaches l p pc s
        → get_elem? p pc ≡ some i
        → ((n : ℕ) (s' : State)
            → length p - n ≤ f
            → Reaches l p n s'
            → (v : ℕ) × (run f l p answer n s' ≡ some v))
        → (o : Outcome) → execute l (answer pc) i.code i pc s ≡ o
        → Proceeds p pc o
        → (v : ℕ) × ((elim o [
          | next n s' ↦ run f l p answer n s'
          | exits v ↦ some v
          | stuck ↦ none
        ])
            ≡ some v)
    onward f pc s i h r at_pc ih (next n s') q g =
        ih n s' (omega (arith, g.0, get_elem?-lt p pc at_pc)) (there i (answer pc) r at_pc q)
    onward f pc s i h r at_pc ih (exits v) q g = (v, refl)
    onward f pc s i h r at_pc ih stuck q g = absurd g

    go :
        (f pc : ℕ) (s : State)
        → length p - pc ≤ f
        → Reaches l p pc s
        → (v : ℕ) × (run f l p answer pc s ≡ some v)
    go zero pc s h r =
        let (i, at_pc, _) = admit-Proceeds l p T e r in
        absurd (omega (arith, get_elem?-lt p pc at_pc))
    go (suc f) pc s h r =
        let (i, at_pc, on) = admit-Proceeds l p T e r in
        let (v, q) =
          onward f pc s i h r at_pc (go f) (execute l (answer pc) i.code i pc s) refl
            (on (answer pc)) in
        (v, rw (at_pc, run) q)
