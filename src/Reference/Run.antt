-- ===== src/Reference/Run.antt =====
-- `cbpf_run` as a whole: it ends, and what its result reports.
use mathlib.Core.Path.{subst}
use c_bpf.Base.{
  ℕ, suc, ◌+◌, ◌-◌, ◌≤◌, ◌<◌, ◌≡◌, refl, sym, ◌⊎◌, inl, inr, false, Option, none, some, List, arith,
  length, get_elem?, get_elem?-lt, get_elem?_total, ◌∙◌,
}
use c_bpf.Ir
use c_bpf.Ir.{
  Insn, Opcode, acquire, copy, spill, reload, read, release, br_null, return, other, Result, log,
  fresh, Trap, no_trap, null, stale, exhausted, trapped, invalid, Status, cbpf_max_events,
  cbpf_max_insns,
}
use c_bpf.Ir.Validate.{Verdict, accepted, rejected, cbpf_validate}
use c_bpf.Ir.WellFormed.{IsProgram, Operands, IsInsn, validate_null, validate_iff}
use c_bpf.Reference.{
  Machine, Effect, go, fault, done, acquire_cell, issue, release_at, read_cell, release_cell, exec,
  settle, round, loop, clean, start, finish_run, run_list, program, cbpf_run,
}
use c_bpf.Reference.Invariant.{Inv, AfterRound, round-Inv, start-Inv}
use c_bpf.Reference.Cleanup.{SameVerdict, IsSettled, clean-IsSettled, IsSettled-mono}
use c_bpf.Reference.Forward.{RoundGoes, round-Goes}
use c_bpf.Reference.Loop.{Returns, Hands, loop_rule}

-- Why an operation traps, in the state before it.
abbrev pub Causes : Machine → Insn → Trap → Type 0
Causes m x no_trap = ⊥
Causes m x exhausted = (x.op ≡ acquire) × (m.result.acquired ≡ 2)
Causes m x null = ((x.op ≡ read) ⊎ (x.op ≡ release)) × (m.regs x.dst ≡ 0)
Causes m x stale =
    ((x.op ≡ read) ⊎ (x.op ≡ release)) × (0 < m.regs x.dst) × (m.live (m.regs x.dst - 1) ≡ false)

-- What an effect leaves of the trap, the events and, where it faults, of the whole state.
abbrev Tells : Insn → ℕ → Machine → Effect → Type 0
Tells x pc m (go t n m') =
    (m'.result.trap ≡ m.result.trap) × (m'.result.event_count ≡ m.result.event_count)
Tells x pc m (fault f t m') = (m' ≡ m) × Causes m x f
Tells x pc m (done m') =
    (x.op ≡ return)
    × (m'.result.status ≡ Ir.Status.returned)
    × (m'.result.trap ≡ m.result.trap)
    × (m'.result.returned ≡ x.imm)
    × (m'.result.pc ≡ m.result.pc)
    × (m'.result.event_count ≡ m.result.event_count + 1)

exec-Tells :
    (op : Opcode) (x : Insn) (pc n : ℕ) (m : Machine)
    → x.op ≡ op
    → IsInsn pc n x
    → Tells x pc m (exec op x pc m)
unfolding exec acquire_cell issue read_cell release_cell release_at log
exec-Tells acquire x pc n m q v = ground arith
exec-Tells copy x pc n m q v = (refl, refl)
exec-Tells spill x pc n m q v = (refl, refl)
exec-Tells reload x pc n m q v = (refl, refl)
exec-Tells read x pc n m q v = ground arith
exec-Tells release x pc n m q v = ground arith
exec-Tells br_null x pc n m q v = (refl, refl)
exec-Tells return x pc n m q v = (q, refl, refl, refl, refl, refl)
exec-Tells (other k) x pc n m q v = absurd (subst (λ o. Operands o x pc n) q v)

-- Where the loop stops: at a RETURN, with its scalar, or at the operation that trapped.
abbrev pub Ended : List Insn → Machine → Type 0
Ended p m =
    (x : Insn) × (get_elem? p m.result.pc ≡ some x)
    × (((m.result.status ≡ Ir.Status.returned)
          × (m.result.trap ≡ no_trap)
          × (x.op ≡ return)
          × (m.result.returned ≡ x.imm))
        ⊎ ((m.result.status ≡ trapped) × Causes m x m.result.trap))

-- The state between two rounds, at `pc`, and at the label `finish`.
abbrev pub Between : List Insn → ℕ → Machine → Type 0
Between p pc m = (pc < length p) × Inv m × (m.result.trap ≡ no_trap) × (m.result.event_count ≤ pc)

abbrev pub AtFinish : List Insn → Machine → Type 0
AtFinish p m = Inv m × Ended p m × (m.result.event_count ≤ length p)

settle-Hands :
    (p : List Insn) (x : Insn) (pc : ℕ) (m : Machine) (e : Effect)
    → get_elem? p pc ≡ some x
    → m.result.trap ≡ no_trap
    → m.result.pc ≡ pc
    → m.result.event_count ≤ pc
    → Tells x pc m e
    → AfterRound Inv (settle x.op pc e)
    → RoundGoes pc (length p) (settle x.op pc e)
    → Hands (Between p) (AtFinish p) pc (settle x.op pc e)
unfolding settle log
settle-Hands p x pc m (go t n m') e z at_pc c tells i g =
    (g.0, (g.1, i, tells.0 ∙ z, omega (arith, tells.1)))
settle-Hands p x pc m (fault f t m') e z at_pc c (same, why) i g =
    rw same (rw same at i, (x, rw at_pc e, inr (refl, why)), omega (arith, get_elem?-lt p pc e))
settle-Hands p x pc m (done m') e z at_pc c (op, st, tr, ret, at_pc', cnt) i g =
    (i, (x, rw (at_pc' ∙ at_pc) e, inl (st, tr ∙ z, op, ret)), omega (arith, get_elem?-lt p pc e))

pub round-Hands :
    (p : List Insn)
    → IsProgram p
    → (x : Insn) (pc : ℕ) (m : Machine) → get_elem? p pc ≡ some x
    → Between p pc m
    → Hands (Between p) (AtFinish p) pc (round x pc m)
unfolding round
round-Hands p v x pc m e (lt, i, z, c) =
    settle-Hands p x pc _ _ e z refl c (exec-Tells x.op x pc _ _ refl (v.each pc x e))
      (round-Inv x pc m i) (round-Goes p x pc m v e)

loop-AtFinish :
    (p : List Insn) → IsProgram p → Returns (AtFinish p) (loop (suc (length p)) p 0 start)
loop-AtFinish p v =
    loop_rule (Between p) (AtFinish p) p (round-Hands p v)
      (λ pc m e b. let (x, e') = get_elem?_total p pc b.0 in absurd (cc (e, e'))) (suc (length p)) 0
      start (omega arith) (v.nonempty, start-Inv, unfold start in refl, unfold start in omega arith)

-- What a trap says of the instruction at which the run stopped.
abbrev pub Blames : Trap → Insn → Result → Type 0
Blames no_trap x r = ⊥
Blames exhausted x r = (x.op ≡ acquire) × (r.acquired ≡ 2)
Blames null x r = (x.op ≡ read) ⊎ (x.op ≡ release)
Blames stale x r = ((x.op ≡ read) ⊎ (x.op ≡ release)) × (0 < r.acquired)

-- A run of a program stops at one of its instructions: at a RETURN, with its scalar, or at an
-- operation that may trap so.
abbrev pub Verdicts : List Insn → Result → Type 0
Verdicts p r =
    (x : Insn) × (get_elem? p r.pc ≡ some x)
    × (((r.status ≡ Ir.Status.returned)
          × (r.trap ≡ no_trap)
          × (x.op ≡ return)
          × (r.returned ≡ x.imm))
        ⊎ ((r.status ≡ trapped) × Blames r.trap x r))

Causes-Blames :
    (t : Trap) (m : Machine) (x : Insn) (r : Result)
    → Inv m
    → r.acquired ≡ m.result.acquired
    → Causes m x t
    → Blames t x r
Causes-Blames no_trap m x r i e h = h
Causes-Blames exhausted m x r i e h = (h.0, e ∙ h.1)
Causes-Blames null m x r i e h = h.0
Causes-Blames stale m x r i e h = (h.0, omega (arith, i.1.regs x.dst))

Ended-Verdicts :
    (p : List Insn) (m : Machine) (r : Result)
    → Inv m
    → SameVerdict m.result r
    → Ended p m
    → Verdicts p r
Ended-Verdicts p m r i s (x, e, inl (a, b, c, d)) =
    (x, rw s.pc e, inl (s.status ∙ a, s.trap ∙ b, c, s.returned ∙ d))
Ended-Verdicts p m r i s (x, e, inr (a, b)) = (
  x,
  rw s.pc e,
  inr (
    s.status ∙ a,
    subst (λ t. Blames t x r) (sym s.trap) (Causes-Blames m.result.trap m x r i s.acquired b),
  ),
)

pub run_list-Returns :
    (p : List Insn)
    → IsProgram p
    → Returns (λ r. IsSettled (length p) r × Verdicts p r) (run_list p)
unfolding run_list finish_run
run_list-Returns p v =
    let (m, e, (i, ended, c)) = loop-AtFinish p v in
    let (settled, same) = clean-IsSettled (length p) m i c in
    (
      (clean m.result.acquired 0 m).result,
      rw (e, finish_run),
      (settled, Ended-Verdicts p m _ i same ended),
    )

-- On a well-formed program `cbpf_run` returns settled, and its PC is that of an instruction of the
-- program which explains it: a RETURN whose scalar it holds, with no trap; or a trapped ACQUIRE with
-- two cells acquired (EXHAUSTED), READ or RELEASE (NULL), READ or RELEASE behind an acquisition
-- (STALE).
pub run-Verdicts :
    (p : List Insn)
    → IsProgram p
    → Returns (λ r. IsSettled (length p) r × Verdicts p r) (cbpf_run (some p))
unfolding cbpf_run program
run-Verdicts p v = rw ((validate_iff p).1 v, cbpf_run) (run_list-Returns p v)

pub refused-IsSettled : (s : Status) (i : ℕ) → IsSettled 64 (record fresh { status = s; pc = i })
refused-IsSettled s i = record {
  room = omega arith;
  refs = refl;
  once = λ j. ground arith;
  totals = refl;
  events = omega arith;
  logged = refl;
}

-- Whatever the input, the NULL program and malformed programs included, `cbpf_run` returns, and in
-- its result at most two cells are acquired, the reference count is at its baseline 1, each
-- acquired cell has been consumed exactly once, by RELEASE or by cleanup, no other cell has been
-- consumed, and the number of events is that of the events written and fits their array.
pub run-IsSettled : (p : Option (List Insn)) → Returns (IsSettled cbpf_max_insns) (cbpf_run p)
unfolding cbpf_run
run-IsSettled none = (_, rw (validate_null, cbpf_run), refused-IsSettled invalid 0)
run-IsSettled (some p) = judged (cbpf_validate (some p)) refl
  where
    judged :
        (w : Verdict)
        → cbpf_validate (some p) ≡ w
        → Returns (IsSettled cbpf_max_insns) (cbpf_run (some p))
    judged accepted e =
        let v = (validate_iff p).0 e in
        let (r, eq, (settled, _)) = run-Verdicts p v in (r, eq, IsSettled-mono r v.bounded settled)
    judged (rejected i) e = (_, rw (e, cbpf_run), refused-IsSettled invalid i)
