-- ===== src/Runtime/Enter.antt =====
-- linux/ownership/cbpf_runtime.c, `cbpf_enter`: how a program is let in, and with what authority.
use Prim.Native.Nat.{bit_and, bit_or}
use c_bpf.Base.{
  ℕ, ◌+◌, ◌-◌, ◌%◌, Bool, true, not, ◌&&◌, ◌||◌, Option, none, some, ◌==◌, ltb, leb, if◌then◌else◌,
}
use c_bpf.Runtime.{Kernel, Cap, Invocation, cbpf_exact, u64_max}

-- What the headers, the linker and the caller supply: the bits `CHERI_PERM_EXECUTE` and `CBPF_EXEC`,
-- those of `CHERI_PERM_LOAD`, `STORE`, `LOAD_CAP`, `STORE_CAP` and `GLOBAL`, the set
-- `CHERI_PERMS_WRITE`, the address of `cbpf_gateway`, the program counter capability, and the return
-- address.
pub record Site (k : Kernel) : Type 0 where
  pub execute : ℕ
  pub executive : ℕ
  pub load : ℕ
  pub store : ℕ
  pub load_cap : ℕ
  pub store_cap : ℕ
  pub global : ℕ
  pub perms_write : ℕ
  pub gateway : ℕ
  pub pcc : Cap k
  pub caller_lr : ℕ

-- The arguments.
pub record Request : Type 0 where
  pub stack_base : ℕ
  pub stack_size : ℕ
  pub ret_addr : ℕ
  pub executive_return_size : ℕ
  pub outer_return_addr : ℕ
  pub prog_cookie : ℕ

pub data EnterError : Type 0 where
  einval erange : EnterError

abbrev aligned : ℕ → ℕ → Bool
aligned n m = n % m == 0

module _ (k : Kernel) (e : Site k) where
  -- The invocation, what is stored in the caller's slot and where, and the registers set on entry.
  pub record Entered : Type 0 where
    pub s : Invocation k
    pub caller_slot : ℕ
    pub caller : Cap k
    pub rcsp : Cap k
    pub rddc : Cap k
    pub code : Cap k
    pub exit : Cap k
    pub gate : Cap k

  pub data Entry : Type 0 where
    refused : EnterError → Entry
    enters : Entered → Entry

  -- The first condition, behind the test for NULL.
  unfoldable pub unfit : Request → Invocation k → Bool
  unfit q s =
      s.entered
      || s.failed
      || not (s.prog == q.prog_cookie)
      || not (q.stack_size == 16)
      || not (aligned q.stack_base 16)
      || ltb (u64_max - q.stack_size) q.stack_base
      || not (aligned q.outer_return_addr 4)
      || ltb q.outer_return_addr (k.base_get e.pcc)
      || ltb (k.length_get e.pcc) (q.outer_return_addr - k.base_get e.pcc)
      || ltb (k.length_get e.pcc - (q.outer_return_addr - k.base_get e.pcc)) 4
      || leb q.ret_addr e.caller_lr
      || q.executive_return_size == 0

  -- The three sets of permissions that are asked for.
  abbrev pub code_perms : ℕ
  code_perms = bit_or (bit_or e.execute e.load) e.global

  abbrev pub exit_perms : ℕ
  exit_perms = bit_or (bit_or (bit_or e.execute e.load) e.global) e.executive

  abbrev pub stack_perms : ℕ
  stack_perms = bit_or (bit_or (bit_or (bit_or e.load e.store) e.load_cap) e.store_cap) e.global

  abbrev pub caller_of : Request → Cap k
  caller_of q = k.address_set e.pcc q.outer_return_addr

  unfoldable pub bad_caller : Request → Bool
  bad_caller q =
      not (k.tag_get (caller_of q))
      || not (k.address_get (caller_of q) == q.outer_return_addr)
      || bit_and (k.perms_get (caller_of q)) e.execute == 0
      || bit_and (k.perms_get (caller_of q)) e.executive == 0

  abbrev pub code_of : Request → Cap k
  code_of q = cbpf_exact k e.caller_lr (q.ret_addr - e.caller_lr) code_perms

  abbrev pub exit_of : Request → Cap k
  exit_of q = cbpf_exact k q.ret_addr q.executive_return_size exit_perms

  abbrev pub stack_of : Request → Cap k
  stack_of q = cbpf_exact k q.stack_base q.stack_size stack_perms

  abbrev pub gate_of : Cap k
  gate_of = k.sentry_create (k.perms_clear (k.address_set e.pcc e.gateway) e.perms_write)

  unfoldable pub unrepresentable : Request → Bool
  unrepresentable q =
      not (k.tag_get (code_of q)) || not (k.tag_get (exit_of q)) || not (k.tag_get (stack_of q))

  abbrev is_sentry : Cap k → Bool
  is_sentry c = k.tag_get c && k.is_sealed c

  unfoldable pub unsealed : Request → Bool
  unsealed q =
      not (is_sentry (k.sentry_create (caller_of q)))
      || not (is_sentry (k.sentry_create (code_of q)))
      || not (is_sentry (k.sentry_create (exit_of q)))
      || not (is_sentry gate_of)
      || not (k.address_get gate_of == e.gateway)

  unfoldable pub entered_with : Request → Invocation k → Entered
  entered_with q s = record {
    s = record s { entered = true };
    caller_slot = q.stack_base + q.stack_size;
    caller = k.sentry_create (caller_of q);
    rcsp = stack_of q;
    rddc = k.null;
    code = k.sentry_create (code_of q);
    exit = k.sentry_create (exit_of q);
    gate = gate_of;
  }

  unfoldable pub enter : Request → Invocation k → Entry
  unfolding unfit bad_caller unrepresentable unsealed entered_with
  enter q s =
      if unfit q s
      then refused einval
      else if bad_caller q
      then refused erange
      else if unrepresentable q
      then refused erange
      else if unsealed q
      then refused erange
      else enters (entered_with q s)

  -- `cbpf_enter`; a refusal changes nothing.
  unfoldable pub cbpf_enter : Request → Option (Invocation k) → Entry
  unfolding enter
  cbpf_enter q none = refused einval
  cbpf_enter q (some s) = enter q s
