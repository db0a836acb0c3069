-- ===== src/Jit/Transfer/Agreement.antt =====
-- linux/ownership/cbpf_jit.c, `admit`: what it is for an instruction and its pass to agree.
use c_bpf.Base.{ℕ, ◌+◌, ◌≡◌, true, some, ◌⊎◌}
use c_bpf.Jit.{Flow}
use c_bpf.Jit.Admit.{Transfer, refuse, pass, Passed}
use c_bpf.Jit.Execution.{Outcome, next, exits, stuck, Covers}

-- Where the instruction goes on, it goes where the pass has joined a flow that describes the state;
-- it is never stuck.
abbrev pub Follows : Passed → ℕ → Outcome → Type 0
Follows r pc (next n s) =
    ((n ≡ pc + 1) × (r.falls_through ≡ true) × Covers r.state s)
    ⊎ ((f : Flow) × (r.taken ≡ some (n, f)) × Covers f s)
Follows r pc (exits n) = Unit
Follows r pc stuck = ⊥

abbrev pub Agrees : Transfer → ℕ → Outcome → Type 0
Agrees (refuse e) pc o = Unit
Agrees (pass r) pc o = Follows r pc o
