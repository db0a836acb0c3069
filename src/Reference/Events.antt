-- ===== src/Reference/Events.antt =====
-- src/cbpf.c: the events of a run are of named operations.
use mathlib.Core.Path.{subst}
use c_bpf.Base.{
  ℕ, zero, suc, ◌+◌, ◌-◌, ◌≡◌, refl, Option, none, some, List, [], ◌∷◌, ◌++◌, length, get_elem?, is,
  ◌==◌, if_rule,
}
use c_bpf.Ir.{
  Insn, Opcode, acquire, copy, spill, reload, read, release, br_null, return, other, Result, log,
  fresh, Event, EventKind, step, trap_event, cleanup, cbpf_cells, invalid, trapped,
}
use c_bpf.Ir
use c_bpf.Ir.Validate.{Verdict, accepted, rejected, cbpf_validate}
use c_bpf.Ir.WellFormed.{Operands, validate_null, validate_iff}
use c_bpf.Reference.{
  Machine, Effect, go, fault, done, acquire_cell, with_live, read_cell, release_cell, exec, settle,
  Round, on, finish, round, loop, clean_at, clean_cell, clean, start, finish_run, run_list, program,
  cbpf_run,
}

abbrev pub IsNamed : Opcode → Type 0
IsNamed (other k) = ⊥
IsNamed _ = Unit

unfoldable pub AllNamed : List Event → Type 0
AllNamed [] = Unit
AllNamed (e ∷ es) = IsNamed e.op × AllNamed es

append-AllNamed :
    (es : List Event) (e : Event) → AllNamed es → IsNamed e.op → AllNamed (es ++ e ∷ [])
unfolding AllNamed
append-AllNamed [] e a n = (n, tt)
append-AllNamed (d ∷ es) e a n = (a.0, append-AllNamed es e a.1 n)

-- The events of a state.
abbrev Tidy : Machine → Type 0
Tidy m = AllNamed m.result.events

log-AllNamed :
    (r : Result) (k : EventKind) (op : Opcode) (pc t : ℕ)
    → AllNamed r.events
    → IsNamed op
    → AllNamed (log r k op pc t).events
unfolding log
log-AllNamed r k op pc t a n = append-AllNamed r.events _ a n

TidyAfter : Effect → Type 0
TidyAfter (go t next m) = Tidy m
TidyAfter (fault f t m) = Tidy m
TidyAfter (done m) = Tidy m

acquire_cell-Tidy : (x : Insn) (pc : ℕ) (m : Machine) → Tidy m → TidyAfter (acquire_cell x pc m)
unfolding acquire_cell TidyAfter
acquire_cell-Tidy x pc m a =
    if_rule TidyAfter (is x.imm 0) _ _ (λ _. a)
      (λ _. if_rule TidyAfter (m.result.acquired == cbpf_cells) _ _ (λ _. a) (λ _. a))

with_live-Tidy :
    (m : Machine) (token : ℕ) (k : Effect) → Tidy m → TidyAfter k → TidyAfter (with_live m token k)
unfolding with_live TidyAfter
with_live-Tidy m token k a b =
    if_rule TidyAfter (token == 0) _ _ (λ _. a)
      (λ _. if_rule TidyAfter (m.live (token - 1)) _ _ (λ _. b) (λ _. a))

exec-Tidy : (op : Opcode) (x : Insn) (pc : ℕ) (m : Machine) → Tidy m → TidyAfter (exec op x pc m)
unfolding exec read_cell release_cell TidyAfter
exec-Tidy acquire x pc m a = acquire_cell-Tidy x pc m a
exec-Tidy copy x pc m a = a
exec-Tidy spill x pc m a = a
exec-Tidy reload x pc m a = a
exec-Tidy read x pc m a = with_live-Tidy m (m.regs x.dst) _ a a
exec-Tidy release x pc m a = with_live-Tidy m (m.regs x.dst) _ a a
exec-Tidy br_null x pc m a = a
exec-Tidy return x pc m a =
    log-AllNamed (record (m.result) { returned = x.imm; status = Ir.Status.returned }) step return
      pc 0 a tt
exec-Tidy (other k) x pc m a = a

RoundTidy : Round → Type 0
RoundTidy (on next m) = Tidy m
RoundTidy (finish m) = Tidy m

settle-Tidy :
    (op : Opcode) (pc : ℕ) (e : Effect) → IsNamed op → TidyAfter e → RoundTidy (settle op pc e)
unfolding settle TidyAfter RoundTidy
settle-Tidy op pc (go t next m) n a = log-AllNamed m.result step op pc t a n
settle-Tidy op pc (fault f t m) n a =
    log-AllNamed (record (m.result) { trap = f; status = trapped }) trap_event op pc t a n
settle-Tidy op pc (done m) n a = a

clean-Tidy : (k i : ℕ) (m : Machine) → Tidy m → Tidy (clean k i m)
unfolding clean clean_cell clean_at
clean-Tidy zero i m a = a
clean-Tidy (suc k) i m a = clean-Tidy k (i + 1) (clean_cell i m) (
    if_rule Tidy (m.live i) _ _
      (λ _. log-AllNamed (clean_at i m).result cleanup release m.result.pc (i + 1) a tt) (λ _. a))

Operands-IsNamed : (op : Opcode) (x : Insn) (i n : ℕ) → Operands op x i n → IsNamed op
Operands-IsNamed acquire x i n h = tt
Operands-IsNamed copy x i n h = tt
Operands-IsNamed spill x i n h = tt
Operands-IsNamed reload x i n h = tt
Operands-IsNamed read x i n h = tt
Operands-IsNamed release x i n h = tt
Operands-IsNamed br_null x i n h = tt
Operands-IsNamed return x i n h = tt
Operands-IsNamed (other k) x i n h = h

-- Where the loop ends, the events are of named operations.
TidyEnd : Option Machine → Type 0
TidyEnd none = Unit
TidyEnd (some m) = Tidy m

loop-Tidy :
    (p : List Insn)
    → ((i : ℕ) (x : Insn) → get_elem? p i ≡ some x → IsNamed x.op)
    → (f pc : ℕ) (m : Machine) → Tidy m
    → TidyEnd (loop f p pc m)
unfolding loop round TidyEnd RoundTidy
loop-Tidy p named zero pc m a = tt
loop-Tidy p named (suc f) pc m a = fetched (loop-Tidy p named f) (get_elem? p pc) refl
  where
    after :
        ((pc : ℕ) (m : Machine) → Tidy m → TidyEnd (loop f p pc m))
        → (r : Round) → RoundTidy r
        → TidyEnd (elim r [ on next m' ↦ loop f p next m' | finish m' ↦ some m' ])
    after ih (on next m') b = ih next m' b
    after ih (finish m') b = b

    fetched :
        ((pc : ℕ) (m : Machine) → Tidy m → TidyEnd (loop f p pc m))
        → (o : Option Insn) → get_elem? p pc ≡ o
        → TidyEnd (elim o [
          | none ↦ some m
          | some x ↦ elim (round x pc m) [ on next m' ↦ loop f p next m' | finish m' ↦ some m' ]
        ])
    fetched ih none e = a
    fetched ih (some x) e = after ih (round x pc m) (
        settle-Tidy x.op pc _ (named pc x e)
          (exec-Tidy x.op x pc (record m { result = record (m.result) { pc = pc } }) a))

-- What is reported has events of named operations.
abbrev Reported : Option Result → Type 0
Reported none = Unit
Reported (some r) = AllNamed r.events

finish_run-Reported : (o : Option Machine) → TidyEnd o → Reported (finish_run o)
unfolding finish_run TidyEnd
finish_run-Reported none a = tt
finish_run-Reported (some m) a = clean-Tidy m.result.acquired 0 m a

-- Every event that `cbpf_run` reports is of an operation that the enumeration names.
pub run-AllNamed : (p : Option (List Insn)) (r : Result) → cbpf_run p ≡ some r → AllNamed r.events
unfolding cbpf_run run_list program start AllNamed
run-AllNamed p r e = subst Reported e (reported p)
  where
    judged :
        (p : List Insn) (w : Verdict) → cbpf_validate (some p) ≡ w → Reported (cbpf_run (some p))
    judged p accepted q =
        rw (q, cbpf_run)
          (finish_run-Reported _ (
            loop-Tidy p
              (λ i x e. Operands-IsNamed x.op x i (length p) (((validate_iff p).0 q).each i x e))
              (suc (length p)) 0 start tt))
    judged p (rejected i) q = rw (q, cbpf_run) tt

    reported : (p : Option (List Insn)) → Reported (cbpf_run p)
    reported none = rw (validate_null, cbpf_run) tt
    reported (some p) = judged p (cbpf_validate (some p)) refl
