-- ===== src/OwnershipGuest.antt =====
-- linux/ownership/guest.c: the fixtures of the guest, and the one that each test selects. Session has
-- `run_case` and `main`.
pub mod Session
use c_bpf.Base.{ℕ, zero, suc, List, [], ◌∷◌, ◌==◌, if◌then◌else◌, ℤ, pos, negsuc}
use c_bpf.Jit.{mov_x, mov_k, stx_dw, ldx_dw, jeq_k, call, exit, BpfInsn}
use c_bpf.KfuncGuest.{ins}
use c_bpf.KfuncGuest.Programs.{Ids}

abbrev pub to_imm : ℕ → ℤ → BpfInsn
to_imm d v = ins mov_k d 0 (pos 0) v

abbrev pub to_copy : ℕ → ℕ → BpfInsn
to_copy d s = ins mov_x d s (pos 0) (pos 0)

-- With BPF_PSEUDO_KFUNC_CALL as the source register.
abbrev pub to_call : ℤ → BpfInsn
to_call id = ins call 0 2 (pos 0) id

abbrev pub null_to : ℕ → ℕ → BpfInsn
null_to r o = ins jeq_k r 0 (pos o) (pos 0)

abbrev pub to_reload : ℕ → BpfInsn
to_reload d = ins ldx_dw d 10 (negsuc 7) (pos 0)

abbrev pub to_spill : ℕ → BpfInsn
to_spill s = ins stx_dw 10 s (negsuc 7) (pos 0)

abbrev pub to_exit : BpfInsn
to_exit = ins exit 0 0 (pos 0) (pos 0)

-- `selected[n] = x`.
abbrev pub replace : ℕ → BpfInsn → List BpfInsn → List BpfInsn
replace n x [] = []
replace zero x (i ∷ is) = x ∷ is
replace (suc n) x (i ∷ is) = i ∷ replace n x is

module _ (ids : Ids) where
  abbrev pub program : List BpfInsn
  program =
      to_imm 1 (pos 0)
      ∷ to_call ids.acquire
      ∷ null_to 0 21
      ∷ to_copy 6 0
      ∷ to_spill 6
      ∷ to_imm 1 (pos 0)
      ∷ to_call ids.acquire
      ∷ null_to 0 11
      ∷ to_copy 7 0
      ∷ to_reload 8
      ∷ to_copy 1 8
      ∷ to_call ids.release
      ∷ to_copy 1 7
      ∷ to_call ids.read
      ∷ to_copy 9 0
      ∷ to_copy 1 7
      ∷ to_call ids.release
      ∷ to_copy 0 9
      ∷ to_exit
      ∷ to_reload 8
      ∷ to_copy 1 8
      ∷ to_call ids.release
      ∷ to_imm 0 (pos 7)
      ∷ to_exit
      ∷ to_imm 0 (pos 0)
      ∷ to_exit
      ∷ []

  abbrev pub alternate : List BpfInsn
  alternate =
      to_imm 1 (pos 0)
      ∷ to_call ids.acquire
      ∷ to_copy 8 0
      ∷ null_to 8 21
      ∷ to_spill 8
      ∷ to_imm 1 (pos 0)
      ∷ to_call ids.acquire
      ∷ to_copy 6 0
      ∷ null_to 6 11
      ∷ to_reload 7
      ∷ to_copy 1 7
      ∷ to_call ids.release
      ∷ to_copy 1 6
      ∷ to_call ids.read
      ∷ to_copy 9 0
      ∷ to_copy 1 6
      ∷ to_call ids.release
      ∷ to_copy 8 9
      ∷ to_copy 0 8
      ∷ to_exit
      ∷ to_reload 7
      ∷ to_copy 1 7
      ∷ to_call ids.release
      ∷ to_imm 0 (pos 9)
      ∷ to_exit
      ∷ to_imm 0 (pos 0)
      ∷ to_exit
      ∷ []

  -- The fixture of a test, and the value that it is expected to return.
  unfoldable pub selected : ℕ → List BpfInsn × ℕ
  selected test =
      if test == 1
      then (alternate, 42)
      else if test == 2
      then (replace 5 (to_imm 1 (pos 1)) program, 7)
      else if test == 3
      then (replace 5 (to_imm 1 (pos 2)) program, 0)
      else if test == 4
      then (replace 12 (to_copy 1 6) program, 42)
      else if test == 6
      then (replace 12 (to_copy 1 6) (replace 13 (to_call ids.release) program), 42)
      else if test == 5
      then (replace 12 (to_reload 1) program, 42)
      else (program, 42)
