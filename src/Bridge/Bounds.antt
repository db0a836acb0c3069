-- ===== src/Bridge/Bounds.antt =====
-- src/tools/conformance_bridge.c: the output fits the capacity that the caller declares.
use c_bpf.Base.{
  ℕ, zero, suc, ◌*◌, ◌≤◌, ◌≡◌, refl, ◌||◌, Option, some, none, List, [], ◌∷◌, arith, ltb,
  if◌then◌else◌, ℤ, length, if_rule,
}
use c_bpf.Ir.{Insn, Result, Event, cbpf_max_insns, cbpf_max_events}
use c_bpf.Bridge.{decode, write_events, write_result, report, output_words, cbpf_conformance_run}

length-write_events : (k : ℕ) (es : List Event) → length (write_events k es) ≡ 5 * k
unfolding write_events
length-write_events zero es = refl
length-write_events (suc k) [] = omega (arith, length-write_events k [])
length-write_events (suc k) (e ∷ es) = omega (arith, length-write_events k es)

-- The words that a call writes, where it writes any.
abbrev pub Fits : ℕ → Option (List ℤ) → Type 0
Fits capacity none = Unit
Fits capacity (some words) = length words ≤ capacity

report-Fits :
    (run : Option (List Insn) → Option Result) (p : Option (List Insn))
    → Fits output_words (report run p)
unfolding report write_result
report-Fits run none = tt
report-Fits run (some p) = judged (run (some p))
  where
    judged :
        (o : Option Result)
        → Fits output_words (elim o [
          | none ↦ none
          | some r ↦ if ltb cbpf_max_events r.event_count then none else some (write_result r)
        ])
    judged none = tt
    judged (some r) =
        if_rule (Fits output_words) (ltb cbpf_max_events r.event_count) none (some (write_result r))
          (λ _. tt) (λ h. ground (arith, length-write_events r.event_count r.events))

Fits-mono : (m n : ℕ) (o : Option (List ℤ)) → m ≤ n → Fits m o → Fits n o
Fits-mono m n none h f = tt
Fits-mono m n (some ws) h f = omega arith

-- Whatever the interpreter behind it, the input, the count and the capacity are, the bridge never
-- writes more words than the declared capacity.
pub conformance_run-Fits :
    (run : Option (List Insn) → Option Result) (input : ℕ → ℤ) (count capacity : ℕ)
    → Fits capacity (cbpf_conformance_run run input count capacity)
unfolding cbpf_conformance_run
conformance_run-Fits run input count capacity =
    if_rule (Fits capacity) (ltb cbpf_max_insns count || ltb capacity output_words) none
      (report run (decode count 0 input)) (λ _. tt)
      (λ h.
        Fits-mono output_words capacity (report run (decode count 0 input)) (ground arith)
          (report-Fits run (decode count 0 input)))
