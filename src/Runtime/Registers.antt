-- ===== src/Runtime/Registers.antt =====
-- linux/ownership/cbpf_runtime.c, `cbpf_test_invoke`: the two special registers that it saves around
-- the program. What the program and `cbpf_enter` leave in them is an argument.
use c_bpf.Base.{◌≡◌, refl, Bool, true, false, Option, none, some, if◌then◌else◌, ℕ}
use c_bpf.Runtime.{Kernel, Cap, Invocation, Cpu}
use c_bpf.Runtime.Invoke.{Execution, Invoked, cbpf_test_invoke}

module _ (k : Kernel) where
  pub record Special : Type 0 where
    pub rddc : Cap k
    pub rcsp : Cap k

  -- The registers before the program, what it makes of them, and the writes behind it.
  unfoldable pub around_program : (Special → Special) → Special → Special
  around_program run saved =
      let left = run saved in record left { rddc = saved.rddc; rcsp = saved.rcsp }

  -- The invocation and the registers after it. A refusal touches neither.
  unfoldable pub test_invoke_saving :
      ℕ → Bool → Execution k → (Special → Special) → Cpu k × Special → Invoked k × Special
  unfolding around_program
  test_invoke_saving prog marked e run (u, special) = (
    cbpf_test_invoke k prog marked e u,
    elim u.active [
      | some s ↦ special
      | none ↦ if marked then around_program run special else special
    ],
  )

  -- Whatever the program leaves in them, both registers are what they were.
  pub registers_kept :
      (prog : ℕ) (marked : Bool) (e : Execution k) (run : Special → Special) (u : Cpu k)
      (special : Special)
      → (test_invoke_saving prog marked e run (u, special)).1 ≡ special
  unfolding test_invoke_saving around_program
  registers_kept prog marked e run u special = kept u.active marked
    where
      kept :
          (o : Option (Invocation k)) (b : Bool)
          → (elim o [ some s ↦ special | none ↦ if b then around_program run special else special ])
            ≡ special
      kept (some s) b = refl
      kept none true = refl
      kept none false = refl
