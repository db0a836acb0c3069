-- ===== src/Jit/Soundness.antt =====
-- linux/ownership/cbpf_jit.c, `admit`: what the finished table says of a run of an admitted program.
use mathlib.Core.Path.{subst}
use c_bpf.Base.{
  ℕ, zero, suc, ◌+◌, ◌≤◌, ◌<◌, ◌≡◌, refl, sym, ap, ◌∙◌, Bool, true, false, not, ◌&&◌, some, List,
  [], ◌∷◌, ◌==◌, if◌then◌else◌, length, get_elem?, get_elem?_total, arith, Bool-cases, inl, inr,
}
use c_bpf.Jit.{BpfInsn}
use c_bpf.Jit.Admit.{
  Linkage, Transfer, refuse, pass, Passed, transfer, Table, record_pass, admit_loop, initial,
  finish, admit, Admission, admitted, refused, einval,
}
use c_bpf.Jit.Execution.{
  State, Outcome, next, exits, stuck, Answer, execute, Covers, Reaches, here, there, cleared,
}
use c_bpf.Jit.Transfer.{transfer-Agrees}
use c_bpf.Jit.Transfer.Agreement.{Follows, Agrees}
use c_bpf.Jit.Joins.{LandsAt, Lands, transfer-Lands, record_pass-Covers, record_pass-apart}

-- A state goes on to one that the table describes, at a later PC.
abbrev pub Goes : Table → ℕ → ℕ → Outcome → Type 0
Goes T pc len (next n s) = (pc < n) × (n ≤ len) × Covers (T.flow n) s
Goes T pc len (exits v) = Unit
Goes T pc len stuck = ⊥

-- The loop from `pc` with table `t` ends with the table `T`.
record Scans (l : Linkage) (is : List BpfInsn) (pc len : ℕ) (t T : Table) : Type 0 where
  grows : (q : ℕ) (s : State) → Covers (t.flow q) s → Covers (T.flow q) s
  final : (q : ℕ) → q ≤ pc → T.flow q ≡ t.flow q
  goes :
      (k : ℕ) (i : BpfInsn) (a : Answer) (s : State)
      → get_elem? is k ≡ some i
      → Covers (T.flow (pc + k)) s
      → Goes T (pc + k) len (execute l a i.code i (pc + k) s)

Follows-Goes :
    (r : Passed) (t T : Table) (pc len : ℕ) (o : Outcome)
    → LandsAt pc len r.taken
    → pc < len
    → ((q : ℕ) (s : State) → Covers ((record_pass pc r t).flow q) s → Covers (T.flow q) s)
    → Follows r pc o
    → Goes T pc len o
Follows-Goes r t T pc len (next n s) h lt grows (inl (e, d, c)) = (
  omega (arith, e),
  omega (arith, e),
  grows n s (record_pass-Covers pc r t n s (inr (inr (e, d, c)))),
)
Follows-Goes r t T pc len (next n s) h lt grows (inr (f, e, c)) =
    let range : (pc < n) × (n < len) = subst (LandsAt pc len) e h in
    (
      range.0,
      omega (arith, range.1),
      grows n s (record_pass-Covers pc r t n s (inr (inl (f, e, c)))),
    )
Follows-Goes r t T pc len (exits v) h lt grows c = tt
Follows-Goes r t T pc len stuck h lt grows c = c

not_turned_away :
    (b : Bool) (x : Admission) {T : Table}
    → (if not b then refused einval else x) ≡ admitted T
    → x ≡ admitted T
not_turned_away true x h = h
not_turned_away false x h = cc

-- A round of the loop that does not refuse.
pub admit_loop_inv :
    (l : Linkage) (i : BpfInsn) (is : List BpfInsn) (pc len : ℕ) (t T : Table)
    → admit_loop l (i ∷ is) pc len t ≡ admitted T
    → (r : Passed) × (transfer l i.code i pc len t.acquisitions (t.flow pc) ≡ pass r)
      × (admit_loop l is (pc + 1) len (record_pass pc r t) ≡ admitted T)
unfolding admit_loop
admit_loop_inv l i is pc len t T e =
    passed (transfer l i.code i pc len t.acquisitions (t.flow pc)) refl
      (not_turned_away (t.flow pc).reached _ e)
  where
    passed :
        (w : Transfer)
        → transfer l i.code i pc len t.acquisitions (t.flow pc) ≡ w
        → (elim w [
          | refuse e ↦ refused e
          | pass r ↦ admit_loop l is (pc + 1) len (record_pass pc r t)
        ])
          ≡ admitted T
        → (r : Passed) × (transfer l i.code i pc len t.acquisitions (t.flow pc) ≡ pass r)
          × (admit_loop l is (pc + 1) len (record_pass pc r t) ≡ admitted T)
    passed (refuse x) q h = cc
    passed (pass r) q h = (r, q, h)

admit_loop-Scans :
    (l : Linkage) (is : List BpfInsn) (pc len : ℕ) (t T : Table)
    → pc + length is ≡ len
    → admit_loop l is pc len t ≡ admitted T
    → Scans l is pc len t T
unfolding admit_loop
admit_loop-Scans l [] pc len t T q e =
    let same : t ≡ T = (let z : t ≡ T = cc in z) in
    record {
      grows = λ k s c. subst (λ (x : Table). Covers (x.flow k) s) same c;
      final = λ k le. ap (λ (x : Table). x.flow k) (sym same);
      goes = λ k i a s h c. cc;
    }
admit_loop-Scans l (i ∷ is) pc len t T q e =
    let (r, passes, rest) = admit_loop_inv l i is pc len t T e in
    let lands : LandsAt pc len r.taken =
      subst (Lands pc len) passes (transfer-Lands l i.code i pc len t.acquisitions (t.flow pc)) in
    let v = admit_loop-Scans l is (pc + 1) len (record_pass pc r t) T (omega (arith, q)) rest in
    let kept : (k : ℕ) → k ≤ pc → T.flow k ≡ t.flow k =
      λ k le. v.final k (omega arith) ∙ record_pass-apart pc r t len k lands le in
    record {
      grows = λ k s c. v.grows k s (record_pass-Covers pc r t k s (inl c));
      final = kept;
      goes = ways r passes lands v kept;
    }
  where
    ways :
        (r : Passed)
        → transfer l i.code i pc len t.acquisitions (t.flow pc) ≡ pass r
        → LandsAt pc len r.taken
        → Scans l is (pc + 1) len (record_pass pc r t) T
        → ((k : ℕ) → k ≤ pc → T.flow k ≡ t.flow k)
        → (k : ℕ) (j : BpfInsn) (a : Answer) (s : State) → get_elem? (i ∷ is) k ≡ some j
        → Covers (T.flow (pc + k)) s
        → Goes T (pc + k) len (execute l a j.code j (pc + k) s)
    ways r passes lands v kept zero j a s h c =
        let here_i : i ≡ j = cc in
        let at_pc : pc + 0 ≡ pc = omega arith in
        let c' : Covers (t.flow pc) s =
          subst (λ f. Covers f s) (kept pc (omega arith))
            (subst (λ n. Covers (T.flow n) s) at_pc c) in
        subst (λ n. Goes T n len (execute l a j.code j n s)) (sym at_pc)
          (subst (λ (x : BpfInsn). Goes T pc len (execute l a x.code x pc s)) here_i
            (Follows-Goes r t T pc len _ lands (omega (arith, q)) v.grows (
              subst (λ w. Agrees w pc (execute l a i.code i pc s)) passes
                (transfer-Agrees l a i.code i pc len t.acquisitions (t.flow pc) s c'))))
    ways r passes lands v kept (suc k) j a s h c =
        let at_k : pc + 1 + k ≡ pc + suc k = omega arith in
        subst (λ n. Goes T n len (execute l a j.code j n s)) at_k
          (v.goes k j a s h (subst (λ n. Covers (T.flow n) s) (sym at_k) c))

finish_inv :
    (n : ℕ) (t T : Table)
    → finish n t ≡ admitted T
    → (t ≡ T) × ((t.flow n).reached ≡ false) × (0 < t.acquisitions)
unfolding finish
finish_inv n t T h =
    elim (Bool-cases (t.has_exit && not (t.acquisitions == 0) && not (t.flow n).reached)) [
      | inl e ↦ (cc (h, e), ground arith, ground arith)
      | inr e ↦ absurd (cc (h, e))
    ]

abbrev pub Ended : Linkage → List BpfInsn → Table → Type 0
Ended l p T =
    (admit_loop l p 0 (length p) initial ≡ admitted T)
    × ((T.flow (length p)).reached ≡ false)
    × (0 < T.acquisitions)

-- What `admit` accepts.
pub admit_inv : (l : Linkage) (p : List BpfInsn) (T : Table) → admit l p ≡ admitted T → Ended l p T
unfolding admit
admit_inv l p T e = ended (admit_loop l p 0 (length p) initial) refl e
  where
    ended :
        (w : Admission)
        → admit_loop l p 0 (length p) initial ≡ w
        → (elim w [ refused x ↦ refused x | admitted t ↦ finish (length p) t ]) ≡ admitted T
        → Ended l p T
    ended (refused x) q h = cc
    ended (admitted t) q h =
        let (same, u, some_call) = finish_inv (length p) t T h in
        let (unreached, positive) : ((T.flow (length p)).reached ≡ false) × (0 < T.acquisitions) =
          subst (λ (x : Table). ((x.flow (length p)).reached ≡ false) × (0 < x.acquisitions)) same
            (u, some_call) in
        (q ∙ ap admitted same, unreached, positive)

scanned_at :
    {l : Linkage} {p : List BpfInsn} {len : ℕ} {t T : Table} (i : BpfInsn) (a : Answer) (pc : ℕ)
    (s : State)
    → Scans l p 0 len t T
    → get_elem? p pc ≡ some i
    → Covers (T.flow pc) s
    → Goes T pc len (execute l a i.code i pc s)
scanned_at {l} {len = len} {T = T} i a pc s v at_pc c =
    let same : 0 + pc ≡ pc = omega arith in
    subst (λ n. Goes T n len (execute l a i.code i n s)) same
      (v.goes pc i a s at_pc (subst (λ n. Covers (T.flow n) s) (sym same) c))

initial-Covers : Covers (initial.flow 0) cleared
unfolding initial
initial-Covers = record { reached = refl; reg = λ r. refl; spill = refl }

-- The finished table describes every state that a run comes to.
Reaches-Covers :
    (l : Linkage) (p : List BpfInsn) (T : Table) {pc : ℕ} {s : State}
    → admit l p ≡ admitted T
    → Reaches l p pc s
    → Covers (T.flow pc) s × (pc < length p)
Reaches-Covers l p T e run =
    let (looped, unreached, _) = admit_inv l p T e in
    let v = admit_loop-Scans l p 0 (length p) initial T (omega arith) looped in
    let (c, le) = covered v run in (c, inside unreached c le)
  where
    covered :
        {pc : ℕ} {s : State}
        → Scans l p 0 (length p) initial T
        → Reaches l p pc s
        → Covers (T.flow pc) s × (pc ≤ length p)
    covered v here = (v.grows 0 cleared initial-Covers, omega arith)
    covered v (there {pc} {n} {s} {s'} i a run at_pc e) =
        let (c, le) = covered v run in
        let o : Goes T pc (length p) (next n s') =
          subst (Goes T pc (length p)) e (scanned_at i a pc s v at_pc c) in
        (o.2, o.1)

    inside :
        {pc : ℕ} {s : State}
        → (T.flow (length p)).reached ≡ false
        → Covers (T.flow pc) s
        → pc ≤ length p
        → pc < length p
    inside {pc} u c le = elim (Bool-cases (pc == length p)) [
      | inl e ↦
          let same : pc ≡ length p = ground arith in
          absurd (let r : (T.flow pc).reached ≡ true = c.reached in cc (r, u, same))
      | inr e ↦ ground arith
    ]

-- The run goes on to a later instruction, or it exits.
abbrev pub Proceeds : List BpfInsn → ℕ → Outcome → Type 0
Proceeds p pc (next n s) = (pc < n) × (n < length p)
Proceeds p pc (exits v) = Unit
Proceeds p pc stuck = ⊥

-- In a program that `admit` accepts, whatever the gates answer, every state that a run from cleared
-- registers comes to is at an instruction of the program, which is not stuck: it goes on to a later
-- instruction of the program, or exits with a number. So the run ends, reads nothing that was not
-- written, hands the gates a handle where they take one, and never takes a handle for a number.
pub admit-Proceeds :
    (l : Linkage) (p : List BpfInsn) (T : Table) {pc : ℕ} {s : State}
    → admit l p ≡ admitted T
    → Reaches l p pc s
    → (i : BpfInsn) × (get_elem? p pc ≡ some i)
      × ((a : Answer) → Proceeds p pc (execute l a i.code i pc s))
admit-Proceeds l p T {pc} {s} e run =
    let (c, lt) = Reaches-Covers l p T e run in
    let (i, at_pc) = get_elem?_total p pc lt in
    let v = admit_loop-Scans l p 0 (length p) initial T (omega arith) (admit_inv l p T e).0 in
    (
      i,
      at_pc,
      λ a. onward i a at_pc (execute l a i.code i pc s) refl (scanned_at i a pc s v at_pc c),
    )
  where
    onward :
        (i : BpfInsn) (a : Answer)
        → get_elem? p pc ≡ some i
        → (o : Outcome) → execute l a i.code i pc s ≡ o
        → Goes T pc (length p) o
        → Proceeds p pc o
    onward i a at_pc (next n s') q g = (g.0, (Reaches-Covers l p T e (there i a run at_pc q)).1)
    onward i a at_pc (exits v) q g = tt
    onward i a at_pc stuck q g = g
