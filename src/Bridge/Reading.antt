-- ===== src/Bridge/Reading.antt =====
-- src/tools/conformance_bridge.c: the words of a result are read again.
use c_bpf.Base.{
  ℕ, zero, suc, ◌≤◌, ◌≡◌, refl, ap, ◌∙◌, some, none, List, [], ◌∷◌, arith, ◌==◌, if◌then◌else◌, ℤ,
  pos, negsuc, length, get_elem?, fun_ext,
}
use c_bpf.Ir.{
  Insn, Opcode, acquire, copy, spill, reload, read, release, br_null, return, other, Result, Event,
  EventKind, step, trap_event, cleanup, Status, trapped, invalid, Trap, no_trap, null, stale,
  exhausted, cbpf_max_insns, cbpf_max_events,
}
use c_bpf.Ir
use c_bpf.Reference.Events.{AllNamed}
use c_bpf.Reference.Cleanup.{IsSettled}
use c_bpf.Bridge.Sending.{opcode_round}
use c_bpf.Bridge.{opcode_of, status_code, trap_code, kind_code, write_events, write_result}

-- A reader of the words, which goes by the order that the comment above `cbpf_conformance_run` gives.
abbrev pub natural : ℤ → ℕ
natural (pos n) = n
natural (negsuc n) = 0

abbrev pub word_at : List ℤ → ℕ → ℤ
word_at ws i = elim (get_elem? ws i) [ none ↦ pos 0 | some x ↦ x ]

abbrev pub status_of : ℕ → Status
status_of k = if k == 0 then Ir.Status.returned else if k == 1 then trapped else invalid

abbrev pub trap_of : ℕ → Trap
trap_of k = if k == 0 then no_trap else if k == 1 then null else if k == 2 then stale else exhausted

abbrev pub kind_of : ℕ → EventKind
kind_of k = if k == 0 then step else if k == 1 then trap_event else cleanup

abbrev pub two_cells : ℕ → ℕ → ℕ → ℕ
two_cells a b i = if i == 0 then a else if i == 1 then b else 0

unfoldable pub read_events : ℕ → List ℤ → List Event
read_events zero ws = []
read_events (suc k) (kind ∷ op ∷ pc ∷ token ∷ refs ∷ rest) =
    (record {
      kind = kind_of (natural kind);
      op = opcode_of (natural op);
      pc = natural pc;
      token = natural token;
      object_refs = natural refs;
    })
    ∷ read_events k rest
read_events (suc k) _ = []

abbrev pub behind : ℕ → List ℤ → List ℤ
behind zero ws = ws
behind (suc k) [] = []
behind (suc k) (w ∷ ws) = behind k ws

unfoldable pub read_result : List ℤ → Result
unfolding read_events
read_result ws =
    let at : ℕ → ℕ = λ i. natural (word_at ws i) in
    record {
      status = status_of (at 0);
      trap = trap_of (at 1);
      pc = at 2;
      returned = word_at ws 3;
      acquired = at 4;
      reads = at 5;
      explicit_releases = at 6;
      cleanup_releases = at 7;
      last_read = at 8;
      object_refs = at 9;
      explicit_by_cell = two_cells (at 10) (at 11);
      cleanup_by_cell = two_cells (at 12) (at 13);
      event_count = at 14;
      events = read_events (at 14) (behind 15 ws);
    }

status_round : (s : Status) → status_of (status_code s) ≡ s
status_round Ir.Status.returned = refl
status_round trapped = refl
status_round invalid = refl

trap_round : (t : Trap) → trap_of (trap_code t) ≡ t
trap_round no_trap = refl
trap_round null = refl
trap_round stale = refl
trap_round exhausted = refl

kind_round : (k : EventKind) → kind_of (kind_code k) ≡ k
kind_round step = refl
kind_round trap_event = refl
kind_round cleanup = refl

event_round :
    (e : Event) {kind : EventKind} {op : Opcode}
    → kind ≡ e.kind
    → op ≡ e.op
    → ◌≡◌ {A = Event} (record e { kind = kind; op = op }) e
event_round e p q = cc

events_round :
    (es : List Event) → AllNamed es → read_events (length es) (write_events (length es) es) ≡ es
unfolding read_events write_events AllNamed
events_round [] n = refl
events_round (e ∷ es) (n, ns) =
    let first = event_round e (kind_round e.kind) (opcode_round e.op n) in
    let rest = events_round es ns in
    ap (λ d. d ∷ read_events (length es) (write_events (length es) es)) first
    ∙ ap (λ ds. e ∷ ds) rest

cells_round : (f : ℕ → ℕ) → ((i : ℕ) → 2 ≤ i → f i ≡ 0) → two_cells (f 0) (f 1) ≡ f
cells_round f h = fun_ext each
  where
    each : (i : ℕ) → two_cells (f 0) (f 1) i ≡ f i
    each zero = refl
    each (suc zero) = refl
    each (suc (suc i)) = ground (arith, h (suc (suc i)) (omega arith))

pub result_round :
    (r : Result) → IsSettled cbpf_max_insns r → AllNamed r.events → read_result (write_result r) ≡ r
unfolding read_result write_result
result_round r settled named =
    rebuilt (status_round r.status) (trap_round r.trap)
      (cells_round r.explicit_by_cell (λ i h. ground (arith, settled.once i, settled.room)))
      (cells_round r.cleanup_by_cell (λ i h. ground (arith, settled.once i, settled.room)))
      (ap (λ n. read_events n (write_events n r.events)) settled.logged
        ∙ events_round r.events named)
  where
    rebuilt :
        {s : Status} {t : Trap} {x c : ℕ → ℕ} {es : List Event}
        → s ≡ r.status
        → t ≡ r.trap
        → x ≡ r.explicit_by_cell
        → c ≡ r.cleanup_by_cell
        → es ≡ r.events
        → ◌≡◌ {A = Result}
            (record r {
              status = s;
              trap = t;
              explicit_by_cell = x;
              cleanup_by_cell = c;
              events = es;
            })
            r
    rebuilt p q u v w = cc
