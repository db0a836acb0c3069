-- ===== src/Bridge/RoundTrip.antt =====
-- src/tools/conformance_bridge.c: a program that is sent as words, and the words that come back,
-- read again, are the run of the interpreter itself.
use mathlib.Core.Option
use c_bpf.Base.{
  ℕ, ◌≤◌, ◌≡◌, ap, ◌∙◌, Bool, false, ◌||◌, Option, some, none, List, arith, ltb, if◌then◌else◌,
  length, get_elem?,
}
use c_bpf.Ir.{Insn, Result, cbpf_max_insns, cbpf_max_events}
use c_bpf.Reference.{cbpf_run}
use c_bpf.Reference.Events.{AllNamed, run-AllNamed}
use c_bpf.Reference.Cleanup.{IsSettled}
use c_bpf.Reference.Run.{run-IsSettled}
use c_bpf.Bridge.{write_result, report, output_words, cbpf_conformance_run}
use c_bpf.Bridge.Sending.{IsSendable, flatten, flatten-Holds, decode_round}
use c_bpf.Bridge.Reading.{read_result, result_round}

report_round :
    (p : List Insn) → Option.map read_result (report cbpf_run (some p)) ≡ cbpf_run (some p)
unfolding report
report_round p =
    let (r, eq, settled) = run-IsSettled (some p) in
    judged (cbpf_run (some p)) r eq settled (run-AllNamed (some p) r eq)
  where
    judged :
        (o : Option Result) (r : Result)
        → o ≡ some r
        → IsSettled cbpf_max_insns r
        → AllNamed r.events
        → Option.map read_result (elim o [
          | none ↦ none
          | some r ↦ if ltb cbpf_max_events r.event_count then none else some (write_result r)
        ])
          ≡ o
    judged o r eq settled named = rw (eq, small settled) (ap some (result_round r settled named))
      where
        small : IsSettled cbpf_max_insns r → ltb cbpf_max_events r.event_count ≡ false
        small settled = ground (arith, settled.events)

-- A client that sends a program of at most 64 instructions, with named operations and operands that
-- fit an `unsigned`, and offers room for 345 words, reads back from the words that the bridge writes
-- exactly the result of `cbpf_run`, its events included; malformed programs are among these.
pub conformance_run_round :
    (p : List Insn) (capacity : ℕ)
    → length p ≤ cbpf_max_insns
    → ((i : ℕ) (x : Insn) → get_elem? p i ≡ some x → IsSendable x)
    → output_words ≤ capacity
    → Option.map read_result (cbpf_conformance_run cbpf_run (flatten p) (length p) capacity)
      ≡ cbpf_run (some p)
unfolding cbpf_conformance_run
conformance_run_round p capacity short sendable room =
    finished
      (decode_round p 0 (flatten p) (λ j x e k m.
        let here : k ≡ j = omega (arith, m) in
        (flatten-Holds p k x (ap (get_elem? p) here ∙ e), sendable j x e)))
      guard
  where
    guard : (ltb cbpf_max_insns (length p) || ltb capacity output_words) ≡ false
    guard = ground arith

    finished :
        {o : Option (List Insn)} {g : Bool}
        → o ≡ some p
        → g ≡ false
        → Option.map read_result (if g then none else report cbpf_run o) ≡ cbpf_run (some p)
    finished e q = rw (e, q) (report_round p)
