-- ===== src/CheriDemo.antt =====
-- src/cheri_demo.c: the two cells, their operations, the stale reads in a child and `main` up to its
-- shutdown. The intrinsics, the addresses, the permission bits, the processes and the loads that the
-- machine refuses are arguments. `none` is a failed `require`, which powers off. What
-- is printed is left out.
pub mod Passing
pub mod Stale
use c_bpf.Base.{
  ℕ, zero, suc, ◌+◌, ◌-◌, ◌≡◌, ◌≢◌, Bool, true, false, not, ◌&&◌, Option, none, some, ◌==◌, ltb,
  if◌then◌else◌, store,
}
use c_bpf.Cheri.{Cheri}

infixl 5 ◌>>=◌ ◌>>◌
unfoldable pub ◌>>=◌ {ℓ κ} : {A : Type ℓ} {B : Type κ} → Option A → (A → Option B) → Option B
none >>= f = none
some a >>= f = f a

abbrev pub ◌>>◌ {ℓ κ} : {A : Type ℓ} {B : Type κ} → Option A → Option B → Option B
m >> n = m >>= λ _. n

abbrev pub require : Bool → Option Bool
require true = some true
require false = none

-- `CBPF_SEGV_CAPTAGERR`, and the number of SIGSEGV.
abbrev pub cbpf_segv_captagerr : ℕ
cbpf_segv_captagerr = 10

abbrev pub sigsegv : ℕ
sigsegv = 11

-- What a load yields: a value, or a signal with its code.
pub data Loaded {ℓ} (A : Type ℓ) : Type ℓ where
  value : A → Loaded A
  faulted : ℕ → ℕ → Loaded A

pub record Platform : Type 1 where
  pub cheri : Cheri
  pub open cheri use *
  pub pointer_size : ℕ
  pub int_size : ℕ
  -- `&live`, `&cells[i]`, the size of a cell and the permissions that `acquire` clears.
  pub live : Cap
  pub private : ℕ → Cap
  pub cell_size : ℕ
  pub cleared_perms : ℕ
  -- The signal and the code with which the machine refuses a load by a capability, if it does, and the
  -- code where the capability leads to no object here.
  pub refuses : Cap → Option (ℕ × ℕ)
  pub other_code : ℕ

-- The outcome of each system call of `expect_stale_fault`: whether it works, how many bytes the
-- handler writes, and how many the parent reads of a message of that size.
pub record Processes : Type 0 where
  pub pipe : Bool
  pub fork : Bool
  pub sigaction : Bool
  pub written : ℕ
  pub received : ℕ → ℕ
  pub waited : Bool

-- `int report[2]`.
abbrev pub report_size : ℕ
report_size = 8

-- How a child ends: the report that it wrote, and its exit status.
pub record Child : Type 0 where
  pub report : Option (ℕ × ℕ)
  pub status : ℕ

module _ (p : Platform) where
  abbrev pub Cap : Type 0
  Cap = p.cheri.Cap

  pub record State : Type 0 where
    pub cells : ℕ → Cap
    pub allocated : ℕ
    pub references : ℕ
    pub effects : ℕ
    -- `live.value`.
    pub live_value : ℕ

  abbrev pub initial : State
  initial = record {
    cells = λ _. p.null;
    allocated = 0;
    references = 1;
    effects = 0;
    live_value = 42;
  }

  unfoldable pub acquire : Cap → State → Option (Cap × State)
  acquire object s = do
    require (ltb s.allocated 2)
    let private = p.private s.allocated
    let bounded = p.bounds_set_exact private p.cell_size
    let public = p.perms_clear bounded p.cleared_perms
    require (p.tag_get public)
    some (
      public,
      record s {
        cells = store s.cells s.allocated object;
        allocated = s.allocated + 1;
        references = s.references + 1;
      },
    )

  -- Whether it released, and the state.
  unfoldable pub consume : ℕ → State → Bool × State
  consume index s =
      if p.tag_get (s.cells index)
      then (
        true,
        record s {
          cells = store s.cells index (p.tag_clear (s.cells index));
          references = s.references - 1;
          effects = s.effects + 1;
        },
      )
      else (false, s)

  -- `handle->object`: the cell at the handle's address.
  unfoldable pub load_object : Cap → State → Loaded Cap
  load_object handle s = elim (p.refuses handle) [
    | some (n, c) ↦ faulted n c
    | none ↦
        if p.address_get handle == p.address_get (p.private 0)
        then value (s.cells 0)
        else if p.address_get handle == p.address_get (p.private 1)
        then value (s.cells 1)
        else faulted sigsegv p.other_code
  ]

  -- `object->value`.
  unfoldable pub load_value : Cap → State → Loaded ℕ
  load_value object s = elim (p.refuses object) [
    | some (n, c) ↦ faulted n c
    | none ↦
        if p.address_get object == p.address_get p.live
        then value s.live_value
        else faulted sigsegv p.other_code
  ]

  abbrev pub and_load {ℓ κ} : {A : Type ℓ} {B : Type κ} → Loaded A → (A → Loaded B) → Loaded B
  and_load (value a) f = f a
  and_load (faulted n c) f = faulted n c

  unfoldable pub resolve_read : Cap → State → Loaded ℕ
  unfolding load_object load_value
  resolve_read handle s = and_load (load_object handle s) (λ object. load_value object s)

  -- A load that the parent makes itself; a fault ends it.
  abbrev pub unfaulted {ℓ} : {A : Type ℓ} → Loaded A → Option A
  unfaulted (value a) = some a
  unfaulted (faulted n c) = none

  -- The handler of a fault, or the end behind the load.
  abbrev pub child_end : Processes → Loaded ℕ → Child
  child_end os (faulted n c) = record {
    report = some (n, c);
    status = if os.written == report_size then 0 else 2;
  }
  child_end os (value v) = record { report = none; status = 4 }

  unfoldable pub child : Processes → Cap → State → Child
  unfolding resolve_read
  child os alias s =
      if os.sigaction
      then child_end os (resolve_read alias s)
      else record { report = none; status = 3 }

  abbrev pub matches : Option (ℕ × ℕ) → Bool
  matches none = false
  matches (some (n, c)) = n == sigsegv && c == cbpf_segv_captagerr

  unfoldable pub expect_stale_fault : Processes → Cap → State → Option Bool
  unfolding child
  expect_stale_fault os alias s = do
    require os.pipe
    require os.fork
    let c = child os alias s
    require os.waited
    require (os.received os.written == report_size && c.status == 0 && matches c.report)

  unfoldable pub main : Processes → Option State
  main os = do
    let object = p.bounds_set_exact p.live p.int_size
    require (p.pointer_size == 16 && p.tag_get object && p.length_get object == p.int_size)
    (a, s) ← acquire object initial
    (b, s) ← acquire object s
    object_a ← unfaulted (load_object a s)
    object_b ← unfaulted (load_object b s)
    require (
        not (p.address_get a == p.address_get b)
        && p.address_get object_a == p.address_get object_b)
    value_a ← unfaulted (resolve_read a s)
    value_b ← unfaulted (resolve_read b s)
    require (value_a == 42 && value_b == 42)
    let first = consume 0 s
    let again = consume 0 first.1
    let s = again.1
    require (first.0 && not again.0 && s.references == 2 && s.effects == 1)
    stale ← unfaulted (load_object a s)
    require (
        not (p.tag_get stale)
        && p.address_get stale == p.address_get object
        && not (p.address_get stale == 0))
    kept ← unfaulted (resolve_read b s)
    direct ← unfaulted (load_value object s)
    require (kept == 42 && direct == 42)
    expect_stale_fault os a s
    expect_stale_fault os a s
    let last = consume 1 s
    require (last.0 && last.1.references == 1 && last.1.effects == 2)
    some last.1
