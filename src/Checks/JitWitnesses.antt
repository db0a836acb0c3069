-- ===== src/Checks/JitWitnesses.antt =====
-- The theorems on linux/ownership/cbpf_jit.c at a concrete program.
use c_bpf.Base.{ℕ, ◌<◌, ◌≤◌, ◌≡◌, refl, true, some, List, [], ◌∷◌, get_elem?, ℤ, pos, negsuc}
use c_bpf.Jit.{Code, mov_x, mov_k, jeq_k, call, exit, BpfInsn}
use c_bpf.Jit.Admit.{
  Linkage, call_operation, Table, admit, Admission, admitted, refused, admit_loop, initial, finish,
  record_pass, transfer, join_at, forward,
}
use c_bpf.Jit.Execution.{
  Answer, State, number, token, put, after_call, cleared, Reaches, here, there, execute,
}
use c_bpf.Jit.Acquisitions.{acquires, admit-acquires}
use c_bpf.Jit.Termination.{run, admit-run}
use c_bpf.Jit.Soundness.{Proceeds, admit-Proceeds}

-- An immediate is the address that it stands for.
abbrev called_address : ℤ → ℕ
called_address (pos n) = n
called_address (negsuc n) = 0

abbrev pub linkage : Linkage
linkage = record {
  get_func_addr = λ i. some (called_address i.imm, true);
  acquire_address = 10;
  read_address = 11;
  release_address = 12;
}

abbrev bpf : Code → ℕ → ℕ → ℕ → ℕ → BpfInsn
bpf code dst src off imm = record {
  code = code;
  dst_reg = dst;
  src_reg = src;
  off = pos off;
  imm = pos imm;
}

-- Acquire, leave at once on NULL, otherwise release.
abbrev pub acquire_release : List BpfInsn
acquire_release =
    bpf mov_k 1 0 0 0
    ∷ bpf call 0 2 0 10
    ∷ bpf jeq_k 0 0 2 0
    ∷ bpf mov_x 1 0 0 0
    ∷ bpf call 0 2 0 12
    ∷ bpf exit 0 0 0 0
    ∷ []

abbrev admitted_by : Admission → Table → Table
admitted_by (admitted t) d = t
admitted_by (refused e) d = d

abbrev pub table : Table
unfolding initial
table = admitted_by (admit linkage acquire_release) initial

pub acquire_release_admitted : admit linkage acquire_release ≡ admitted table
unfolding admit admit_loop initial finish record_pass transfer join_at forward
acquire_release_admitted = refl

-- The answer of an acquisition that succeeds.
abbrev first_answer : Answer
first_answer = record { acquired = some 7; value = 42 }

abbrev acquired_state : State
acquired_state = after_call (put cleared 1 (number 0)) (token 7)

acquires_first : Reaches linkage acquire_release 2 acquired_state
unfolding execute call_operation
acquires_first =
    there (bpf call 0 2 0 10) first_answer (there (bpf mov_k 1 0 0 0) first_answer here refl refl)
      refl refl

admit-Proceeds_example :
    (i : BpfInsn) × (get_elem? acquire_release 2 ≡ some i)
    × ((a : Answer) → Proceeds acquire_release 2 (execute linkage a i.code i 2 acquired_state))
admit-Proceeds_example =
    admit-Proceeds linkage acquire_release table acquire_release_admitted acquires_first

admit-acquires_example :
    (0 < acquires linkage acquire_release) × (acquires linkage acquire_release ≤ 2)
admit-acquires_example = admit-acquires linkage acquire_release table acquire_release_admitted

admit-run_example : (v : ℕ) × (run 6 linkage acquire_release (λ _. first_answer) 0 cleared ≡ some v)
admit-run_example =
    admit-run linkage acquire_release table (λ _. first_answer) acquire_release_admitted
