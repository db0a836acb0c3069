-- ===== src/SpatialGuest/Order.antt =====
-- linux/spatial/native-guest.c: the order in which the guest asks, up to the closing of what is open.
use c_bpf.Base.{ℕ, ◌≡◌, Bool, true, false, Option, none, some, List, [], ◌∷◌, ◌++◌}
use c_bpf.SpatialGuest.{
  program, MapInfo, ProgInfo, Bytes, initial_value, Event, creates, describes, updates, looks,
  loads, inspects, waits, runs, closes, Kernel, World,
}
use c_bpf.SpatialGuest.Control.{close_all}

-- Where the guest stands, with the descriptors that are open: the map's, then the program's.
pub data Phase : Type 0 where
  fresh over : Phase
  mapped unloaded : ℕ → Phase
  loaded authorized ran : ℕ → ℕ → Phase

-- The program runs once, behind the authorization, which comes behind its load.
pub data Step : Phase → Event → Phase → Type 0 where
  creating : (m : ℕ) → Step fresh (creates (some m)) (mapped m)
  failing : Step fresh (creates none) over
  describing : (m : ℕ) (i : Option MapInfo) → Step (mapped m) (describes m i) (mapped m)
  updating : (m : ℕ) (b : Bool) → Step (mapped m) (updates m initial_value b) (mapped m)
  looking : (m : ℕ) (v : Option Bytes) → Step (mapped m) (looks m v) (mapped m)
  refusing : (m : ℕ) → Step (mapped m) (loads (program m) none) (mapped m)
  loading : (m p : ℕ) → Step (mapped m) (loads (program m) (some p)) (loaded m p)
  inspecting : (m p : ℕ) (i : Option ProgInfo) → Step (loaded m p) (inspects p i) (loaded m p)
  denying : (m p : ℕ) → Step (loaded m p) (waits false) (loaded m p)
  allowing : (m p : ℕ) → Step (loaded m p) (waits true) (authorized m p)
  running : (m p : ℕ) (v : Option ℕ) → Step (authorized m p) (runs p v) (ran m p)
  reading : (m p : ℕ) (v : Option Bytes) → Step (ran m p) (looks m v) (ran m p)
  unloading : (m p : ℕ) → Step (loaded m p) (closes p) (unloaded m)
  unloading_authorized : (m p : ℕ) → Step (authorized m p) (closes p) (unloaded m)
  unloading_ran : (m p : ℕ) → Step (ran m p) (closes p) (unloaded m)
  closing_mapped : (m : ℕ) → Step (mapped m) (closes m) over
  closing : (m : ℕ) → Step (unloaded m) (closes m) over

-- A list of requests, the latest at its end.
pub data Walk : Phase → List Event → Phase → Type 0 where
  stop : {p : Phase} → Walk p [] p
  go : {p q r : Phase} {e : Event} {es : List Event} → Step p e q → Walk q es r → Walk p (e ∷ es) r

pub extend-Walk :
    {p q r : Phase} {es : List Event} {e : Event}
    → Walk p es q
    → Step q e r
    → Walk p (es ++ (e ∷ [])) r
extend-Walk stop s = go s stop
extend-Walk (go t w) s = go t (extend-Walk w s)

abbrev pub map_of : Phase → Option ℕ
map_of fresh = none
map_of over = none
map_of (mapped m) = some m
map_of (unloaded m) = some m
map_of (loaded m p) = some m
map_of (authorized m p) = some m
map_of (ran m p) = some m

abbrev pub program_of : Phase → Option ℕ
program_of fresh = none
program_of over = none
program_of (mapped m) = none
program_of (unloaded m) = none
program_of (loaded m p) = some p
program_of (authorized m p) = some p
program_of (ran m p) = some p

-- The map has been asked for.
abbrev pub Begun : Phase → Type 0
Begun fresh = ⊥
Begun over = ◌≡◌ {A = ℕ} 0 0
Begun (mapped m) = ◌≡◌ {A = ℕ} 0 0
Begun (unloaded m) = ◌≡◌ {A = ℕ} 0 0
Begun (loaded m p) = ◌≡◌ {A = ℕ} 0 0
Begun (authorized m p) = ◌≡◌ {A = ℕ} 0 0
Begun (ran m p) = ◌≡◌ {A = ℕ} 0 0

module _ (k : Kernel) where
  -- The variables hold the descriptors that are open.
  pub record At (p : Phase) (w : World k) : Type 0 where
    pub walk : Walk fresh w.events p
    pub map_fd : w.map_fd ≡ map_of p
    pub prog_fd : w.prog_fd ≡ program_of p

  -- At `out`.
  pub record Out (w : World k) : Type 0 where
    pub phase : Phase
    pub begun : Begun phase
    pub at : At phase w

  abbrev pub out : {w : World k} (p : Phase) → Begun p → At p w → Out w
  out p b a = record { phase = p; begun = b; at = a }

  pub close_all-Walk : (w : World k) → Out w → Walk fresh (close_all k w).events over
  close_all-Walk w o = closed o.phase o.begun o.at
    where
      closed : (p : Phase) → Begun p → At p w → Walk fresh (close_all k w).events over
      closed fresh b a = absurd b
      closed over b a = rw (a.prog_fd, a.map_fd) a.walk
      closed (mapped m) b a = rw (a.prog_fd, a.map_fd) (extend-Walk a.walk (closing_mapped m))
      closed (unloaded m) b a = rw (a.prog_fd, a.map_fd) (extend-Walk a.walk (closing m))
      closed (loaded m p) b a =
          rw (a.prog_fd, a.map_fd) (extend-Walk (extend-Walk a.walk (unloading m p)) (closing m))
      closed (authorized m p) b a =
          rw (a.prog_fd, a.map_fd)
            (extend-Walk (extend-Walk a.walk (unloading_authorized m p)) (closing m))
      closed (ran m p) b a =
          rw (a.prog_fd, a.map_fd)
            (extend-Walk (extend-Walk a.walk (unloading_ran m p)) (closing m))
