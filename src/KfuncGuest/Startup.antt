-- ===== src/KfuncGuest/Startup.antt =====
-- linux/kfunc/guest.c: the counter files, the search for the module's BTF, the preparation of the guest
-- and `main` around the session. The system calls and `strtoull` are arguments.
pub mod Closing
use c_bpf.Base.{
  ℕ, zero, suc, ◌≡◌, refl, Bool, true, false, not, ◌&&◌, ◌||◌, Option, none, some, List, [], ◌∷◌,
  ◌++◌, leb, ◌==◌, if◌then◌else◌, length, ◌≤◌, ◌+◌, arith, if_rule,
}
use c_bpf.KfuncGuest.Programs.{Ids}
use c_bpf.KfuncGuest.Session.{Kernel, Counters, main}

-- The text of a counter file: digits, perhaps with a newline behind them. `strtoull` gives the number
-- and what is left of the text, or fails.
unfoldable pub parse_counter : (List ℕ → Option (ℕ × List ℕ)) → List ℕ → Option ℕ
parse_counter strtoull [] = none
parse_counter strtoull (c ∷ cs) =
    if not (leb b'0' c && leb c b'9') || length (c ∷ cs) == 63
    then none
    else whole (strtoull (c ∷ cs))
  where
    whole : Option (ℕ × List ℕ) → Option ℕ
    whole none = none
    whole (some (n, [])) = some n
    whole (some (n, d ∷ [])) = if d == b'\n' then some n else none
    whole (some (n, d ∷ e ∷ es)) = none

abbrev pub counted : Option ℕ → (ℕ → Option Counters) → Option Counters
counted none f = none
counted (some n) f = f n

-- The five files in turn, each as it is read.
unfoldable pub snapshot :
    (List ℕ → Option (ℕ × List ℕ))
    → (acquisitions releases live reads object_refs : List ℕ) → Option Counters
unfolding parse_counter
snapshot strtoull acquisitions releases live reads object_refs =
    counted (parse_counter strtoull acquisitions) (λ a.
      counted (parse_counter strtoull releases) (λ r. counted (parse_counter strtoull live) (λ l.
        counted (parse_counter strtoull reads) (λ d.
          counted (parse_counter strtoull object_refs) (λ o.
            some
              (record { acquisitions = a; releases = r; live = l; reads = d; object_refs = o }))))))

-- What the start does with descriptors of BTF objects.
pub data Event : Type 0 where
  opens closes : ℕ → Event

pub record Startup (k : Kernel) : Type 0 where
  pub pid : ℕ
  pub uname_fails : Bool
  pub release_matches : Bool
  -- `mkdir` of /proc and of /sys: `none` where it works, else `errno`.
  pub mkdir : ℕ → k.State → Option ℕ × k.State
  pub eexist : ℕ
  pub mount : ℕ → k.State → Bool × k.State
  pub open_module : k.State → Option ℕ × k.State
  pub finit_module : ℕ → k.State → Bool × k.State
  pub next_id : ℕ → k.State → Option ℕ × k.State
  pub fd_by_id : ℕ → k.State → Option ℕ × k.State
  -- Whether the object is a kernel's, and whether its name is "cbpf_kfunc".
  pub describe : ℕ → k.State → Option (Bool × Bool) × k.State
  pub close : ℕ → k.State → k.State

module _ (k : Kernel) (b : Startup k) where
  pub record Found : Type 0 where
    pub fd : Option ℕ
    pub events : List Event
    pub state : k.State

  abbrev pub is_module : Option (Bool × Bool) → Bool
  is_module none = false
  is_module (some (kernel, named)) = kernel && named

  abbrev pub answered : Option (Bool × Bool) → Bool
  answered none = false
  answered (some x) = true

  -- An object with its descriptor: it is the module's, or it is closed, and the search goes on unless
  -- it could not be described.
  unfoldable pub examine : (k.State → Found) → ℕ → k.State → Found
  examine search fd s =
      let i = b.describe fd s in
      let rest = search (b.close fd i.1) in
      if is_module i.0
      then record { fd = some fd; events = opens fd ∷ []; state = i.1 }
      else if answered i.0
      then record rest { events = opens fd ∷ closes fd ∷ rest.events }
      else record { fd = none; events = opens fd ∷ closes fd ∷ []; state = b.close fd i.1 }

  abbrev pub nothing : k.State → Found
  nothing s = record { fd = none; events = []; state = s }

  abbrev pub with_number : Option ℕ × k.State → (ℕ → k.State → Found) → Found
  with_number (none, s) f = nothing s
  with_number (some n, s) f = f n s

  -- At most `n` attempts behind the identifier `previous`.
  unfoldable pub search_btf : ℕ → ℕ → k.State → Found
  unfolding examine
  search_btf zero previous s = nothing s
  search_btf (suc n) previous s =
      with_number (b.next_id previous s)
        (λ id s. with_number (b.fd_by_id id s) (λ fd s. examine (search_btf n id) fd s))

  unfoldable pub module_btf_fd : k.State → Found
  unfolding search_btf
  module_btf_fd s = search_btf 128 0 s

  -- A directory that is there already is none the worse.
  abbrev pub made : Option ℕ → Bool
  made none = true
  made (some errno) = errno == b.eexist

  abbrev pub load_module : Option ℕ × k.State → Bool × k.State
  load_module (none, s) = (false, s)
  load_module (some fd, s) = let r = b.finit_module fd s in (r.0, b.close fd r.1)

  -- Whether each step works; the first that fails is the last.
  unfoldable pub prepare_guest : k.State → Bool × k.State
  prepare_guest s =
      let proc = b.mkdir 0 s in
      let sys = b.mkdir 1 proc.1 in
      let proc_mount = b.mount 0 sys.1 in
      let sys_mount = b.mount 1 proc_mount.1 in
      let inserted = load_module (b.open_module sys_mount.1) in
      if not (made proc.0)
      then (false, proc.1)
      else if not (made sys.0)
      then (false, sys.1)
      else if not proc_mount.0
      then (false, proc_mount.1)
      else if not sys_mount.0
      then (false, sys_mount.1)
      else inserted

  abbrev pub confirm_guest_identity : Bool
  confirm_guest_identity = b.pid == 1 && not b.uname_fails && b.release_matches

  -- What a session shows, and the descriptors that were opened and closed for it.
  pub record Shown : Type 0 where
    pub pass : Bool
    pub events : List Event

  abbrev pub is_pass {ℓ} : {A : Type ℓ} → Option A → Bool
  is_pass none = false
  is_pass (some a) = true

  -- The session on what the search gave, and the closing of the module's descriptor.
  abbrev pub session_on : Ids → Option ℕ → List Event → k.State → Shown
  session_on ids none events s = record { pass = false; events = events }
  session_on ids (some fd) events s = record {
    pass = is_pass (main k ids s);
    events = events ++ (closes fd ∷ []);
  }

  -- `none` outside the dedicated guest, where nothing is asked and the machine stays on.
  unfoldable pub start_guest : Ids → k.State → Option Shown
  unfolding prepare_guest module_btf_fd main
  start_guest ids s =
      let ready = prepare_guest s in
      let found = module_btf_fd ready.1 in
      if not confirm_guest_identity
      then none
      else some (
          if ready.0
          then session_on ids found.fd found.events found.state
          else record { pass = false; events = [] })
