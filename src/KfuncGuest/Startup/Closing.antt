-- ===== src/KfuncGuest/Startup/Closing.antt =====
-- linux/kfunc/guest.c: the guest closes each descriptor of a BTF object that it opens.
use mathlib.Core.Path.{subst}
use c_bpf.Base.{
  ℕ, zero, suc, ◌≡◌, false, not, Option, none, some, List, [], ◌∷◌, ◌++◌, if◌then◌else◌, if_rule,
  unguarded,
}
use c_bpf.KfuncGuest.Programs.{Ids}
use c_bpf.KfuncGuest.Session.{Kernel}
use c_bpf.KfuncGuest.Startup.{
  Event, opens, closes, Startup, Found, is_module, answered, examine, with_number, search_btf,
  module_btf_fd, prepare_guest, confirm_guest_identity, Shown, session_on, start_guest,
}

-- Each descriptor is closed before the next is opened.
pub data Closed : List Event → Type 0 where
  none_open : Closed []
  and_closed : {fd : ℕ} {es : List Event} → Closed es → Closed (opens fd ∷ closes fd ∷ es)

-- All but the last, which is handed out.
pub data Leaves : Option ℕ → List Event → Type 0 where
  leaves_none : Leaves none []
  hands_out : {fd : ℕ} → Leaves (some fd) (opens fd ∷ [])
  closes_one :
      {fd : ℕ} {o : Option ℕ} {es : List Event} → Leaves o es → Leaves o (opens fd ∷ closes fd ∷ es)

Leaves-Closed-none : {es : List Event} → Leaves none es → Closed es
Leaves-Closed-none leaves_none = none_open
Leaves-Closed-none (closes_one l) = and_closed (Leaves-Closed-none l)

Leaves-Closed : {fd : ℕ} {es : List Event} → Leaves (some fd) es → Closed (es ++ (closes fd ∷ []))
Leaves-Closed hands_out = and_closed none_open
Leaves-Closed (closes_one l) = and_closed (Leaves-Closed l)

module _ (k : Kernel) (b : Startup k) where
  Tidy : Found k b → Type 0
  Tidy f = Leaves f.fd f.events

  with_number-Tidy :
      (r : Option ℕ × k.State) (f : ℕ → k.State → Found k b)
      → ((n : ℕ) (s : k.State) → Tidy (f n s))
      → Tidy (with_number k b r f)
  unfolding Tidy
  with_number-Tidy (none, s) f h = leaves_none
  with_number-Tidy (some n, s) f h = h n s

  examine-Tidy :
      (search : k.State → Found k b) (fd : ℕ) (s : k.State)
      → ((s : k.State) → Tidy (search s))
      → Tidy (examine k b search fd s)
  unfolding examine Tidy
  examine-Tidy search fd s h =
      let i = b.describe fd s in
      if_rule (λ (f : Found k b). Leaves f.fd f.events) (is_module k b i.0) _ _ (λ _. hands_out)
        (λ _.
          if_rule (λ (f : Found k b). Leaves f.fd f.events) (answered k b i.0) _ _
            (λ _. closes_one (h (b.close fd i.1))) (λ _. closes_one leaves_none))

  search_btf-Tidy : (n previous : ℕ) (s : k.State) → Tidy (search_btf k b n previous s)
  unfolding search_btf
  search_btf-Tidy zero previous s = unfold Tidy in leaves_none
  search_btf-Tidy (suc n) previous s = with_number-Tidy (b.next_id previous s) _ (λ id s.
      with_number-Tidy (b.fd_by_id id s) _
        (λ fd s. examine-Tidy (search_btf k b n id) fd s (search_btf-Tidy n id)))

  session_on-Closed :
      (ids : Ids) (o : Option ℕ) (es : List Event) (s : k.State)
      → Leaves o es
      → Closed (session_on k b ids o es s).events
  session_on-Closed ids none es s l = Leaves-Closed-none l
  session_on-Closed ids (some fd) es s l = Leaves-Closed l

  -- However the search and the session end, each descriptor of a BTF object has been closed.
  pub start_guest-Closed :
      (ids : Ids) (s : k.State) (r : Shown k b) → start_guest k b ids s ≡ some r → Closed r.events
  unfolding start_guest module_btf_fd
  start_guest-Closed ids s r e =
      let ready = prepare_guest k b s in
      let found = module_btf_fd k b ready.1 in
      let started : Shown k b =
        if ready.0
        then session_on k b ids found.fd found.events found.state
        else record { pass = false; events = [] } in
      let tidy : Closed started.events =
        if_rule (λ (x : Shown k b). Closed x.events) ready.0 _ _
          (λ _.
            session_on-Closed ids found.fd found.events found.state
              (unfold Tidy in search_btf-Tidy 128 0 ready.1))
          (λ _. none_open) in
      let same : started ≡ r = unguarded (not (confirm_guest_identity k b)) e in
      subst (λ (x : Shown k b). Closed x.events) same tidy
