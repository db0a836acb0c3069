-- ===== src/Runtime/Confinement.antt =====
-- linux/ownership/cbpf_runtime.c, `cbpf_enter`: the authority of a program that has been let in.
use mathlib.Core.Path.{subst}
use c_bpf.Base.{
  ap, ℕ, ◌+◌, ◌-◌, ◌≡◌, refl, Bool, true, false, Option, none, some, List, if◌then◌else◌, arith,
}
use c_bpf.Cheri.{IsCheri}
use c_bpf.Runtime.{Kernel, Cap, Invocation, Machine, TraceLine, cbpf_exact}
use c_bpf.Runtime.Invoke.{Call, run_calls}
use c_bpf.Runtime.Steps.{run_calls-entered}
use c_bpf.Runtime.Enter.{
  Site, Request, EnterError, einval, Entered, Entry, refused, enters, unfit, code_of, exit_of,
  stack_of, code_perms, exit_perms, stack_perms, unrepresentable, unsealed, entered_with, enter,
  cbpf_enter,
}

-- A capability of exactly `n` bytes at `a` with exactly the permissions `p`.
pub record IsExactly (k : Kernel) (a n p : ℕ) (c : Cap k) : Type 0 where
  pub tagged : k.tag_get c ≡ true
  pub unsealed : k.is_sealed c ≡ false
  pub address : k.address_get c ≡ a
  pub base : k.base_get c ≡ a
  pub length : k.length_get c ≡ n
  pub perms : k.perms_get c ≡ p

pub cbpf_exact-IsExactly :
    (k : Kernel) (laws : IsCheri k.cheri) (address size perms : ℕ)
    → k.tag_get (cbpf_exact k address size perms) ≡ true
    → IsExactly k address size perms (cbpf_exact k address size perms)
unfolding cbpf_exact
cbpf_exact-IsExactly k laws address size perms h =
    let null = laws.null_untagged in
    record {
      tagged = h;
      unsealed = ground arith;
      address = ground arith;
      base = ground arith;
      length = ground arith;
      perms = ground arith;
    }

module _ (k : Kernel) (laws : IsCheri k.cheri) (e : Site k) where
  -- A tagged and sealed entry to a capability of which `P` holds.
  pub record IsSentry (P : Cap k → Type 0) (c : Cap k) : Type 0 where
    pub tagged : k.tag_get c ≡ true
    pub sealed : k.is_sealed c ≡ true
    pub inner : (d : Cap k) × (c ≡ k.sentry_create d) × P d

  -- What the program gets: its own code, the exit and the gateway as sealed entries, a stack of 16
  -- bytes, and no default data capability. The invocation was fresh, and the program its own.
  pub record Confined (q : Request) (s : Invocation k) (r : Entered k e) : Type 0 where
    pub fresh : (s.entered ≡ false) × (s.failed ≡ false) × (s.prog ≡ q.prog_cookie)
    pub entered : r.s ≡ record s { entered = true }
    pub code : IsSentry (IsExactly k e.caller_lr (q.ret_addr - e.caller_lr) (code_perms k e)) r.code
    pub exit : IsSentry (IsExactly k q.ret_addr q.executive_return_size (exit_perms k e)) r.exit
    pub gate : IsSentry (λ _. Unit) r.gate
    pub gate_address : k.address_get r.gate ≡ e.gateway
    pub stack : IsExactly k q.stack_base 16 (stack_perms k e) r.rcsp
    pub no_data : k.tag_get r.rddc ≡ false
    pub slot : r.caller_slot ≡ q.stack_base + 16

  branch_inv :
      (b : Bool) (x : EnterError) (y : Entry k e) {r : Entered k e}
      → (if b then refused x else y) ≡ enters r
      → (b ≡ false) × (y ≡ enters r)
  branch_inv true x y h = cc
  branch_inv false x y h = (refl, h)

  enters_inj : (a b : Entered k e) → Path (Entry k e) (enters a) (enters b) → a ≡ b
  enters_inj a b h = cc

  enter_inv :
      (q : Request) (s : Invocation k) (r : Entered k e)
      → enter k e q s ≡ enters r
      → (unfit k e q s ≡ false)
        × (unrepresentable k e q ≡ false)
        × (unsealed k e q ≡ false)
        × (entered_with k e q s ≡ r)
  unfolding enter
  enter_inv q s r h =
      let (a, h₁) = branch_inv _ _ _ h in
      let (b, h₂) = branch_inv _ _ _ h₁ in
      let (c, h₃) = branch_inv _ _ _ h₂ in
      let (d, h₄) = branch_inv _ _ _ h₃ in (a, c, d, enters_inj _ _ h₄)

  entered_with-Confined :
      (q : Request) (s : Invocation k)
      → unfit k e q s ≡ false
      → unrepresentable k e q ≡ false
      → unsealed k e q ≡ false
      → Confined q s (entered_with k e q s)
  unfolding entered_with unfit unrepresentable unsealed
  entered_with-Confined q s a b c = record {
    fresh = (ground arith, ground arith, ground arith);
    entered = refl;
    code = record {
      tagged = ground arith;
      sealed = ground arith;
      inner = (code_of k e q, refl, cbpf_exact-IsExactly k laws _ _ _ (ground arith));
    };
    exit = record {
      tagged = ground arith;
      sealed = ground arith;
      inner = (exit_of k e q, refl, cbpf_exact-IsExactly k laws _ _ _ (ground arith));
    };
    gate = record { tagged = ground arith; sealed = ground arith; inner = (_, refl, tt) };
    gate_address = ground arith;
    stack =
        let size : q.stack_size ≡ 16 = ground arith in
        subst (λ n. IsExactly k q.stack_base n (stack_perms k e) (stack_of k e q)) size
          (cbpf_exact-IsExactly k laws _ _ _ (ground arith));
    no_data = laws.null_untagged;
    slot = ground arith;
  }

  -- When `cbpf_enter` lets a program in, there is an invocation, not entered and not failed, of this
  -- very program, which is now entered and otherwise as before; the program's code and the exit are
  -- sealed entries to exactly the bytes asked for, with the permissions EXECUTE, LOAD and GLOBAL alone,
  -- and EXECUTIVE for the exit; the gate is a sealed entry at the gateway; the stack is exactly 16
  -- bytes, to load and store data and capabilities; and the default data capability has no tag.
  pub enter-Confined :
      (q : Request) (o : Option (Invocation k)) (r : Entered k e)
      → cbpf_enter k e q o ≡ enters r
      → (s : Invocation k) × (o ≡ some s) × Confined q s r
  unfolding cbpf_enter
  enter-Confined q none r h = cc
  enter-Confined q (some s) r h =
      let (a, b, c, same) = enter_inv q s r h in
      (s, refl, subst (Confined q s) same (entered_with-Confined q s a b c))

  refuses_entered :
      (q : Request) (s : Invocation k) → s.entered ≡ true → enter k e q s ≡ refused einval
  unfolding enter unfit
  refuses_entered q s b = rw b refl

  -- Once a program has been let in, and after any gate calls that it makes, the same invocation lets
  -- no other in, whatever the arguments.
  pub enter_once :
      (q q' : Request) (o : Option (Invocation k)) (r : Entered k e) (calls : List (Call k))
      (refs : k.refcount.Count) (lines : List TraceLine)
      → cbpf_enter k e q o ≡ enters r
      → cbpf_enter k e q'
          (some (run_calls k calls (record { s = r.s; refs = refs; lines = lines })).0.s)
        ≡ refused einval
  unfolding cbpf_enter
  enter_once q q' o r calls refs lines h =
      let (s, _, c) = enter-Confined q o r h in
      let busy : r.s.entered ≡ true = ap (λ (x : Invocation k). x.entered) c.entered in
      let start : Machine k = record { s = r.s; refs = refs; lines = lines } in
      refuses_entered q' _ (run_calls-entered k calls start busy)
