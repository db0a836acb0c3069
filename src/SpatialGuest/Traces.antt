-- ===== src/SpatialGuest/Traces.antt =====
-- linux/spatial/native-guest.c: what each command adds to what the guest has asked.
use c_bpf.Base.{
  ℕ, ◌≡◌, refl, ap, Bool, true, false, Option, none, some, List, [], ◌∷◌, ◌++◌, if◌then◌else◌,
}
use c_bpf.SpatialGuest.{Insn, Event, creates, loads, Kernel, Stage, Counts, bump, World, add}
use c_bpf.SpatialGuest.Control.{create_map, load_program}
use c_bpf.SpatialGuest.Ends.{Ends, goes, leaves}

pub append_three :
    {A : Type 0} (es : List A) (a b c : A)
    → ((es ++ (a ∷ [])) ++ (b ∷ [])) ++ (c ∷ []) ≡ es ++ (a ∷ b ∷ c ∷ [])
append_three [] a b c = refl
append_three (e ∷ es) a b c = ap (λ l. e ∷ l) (append_three es a b c)

module _ (k : Kernel) where
  pub record Trace (m p : Option ℕ) (es : List Event) (w : World k) : Type 0 where
    pub events : w.events ≡ es
    pub map_fd : w.map_fd ≡ m
    pub prog_fd : w.prog_fd ≡ p

  abbrev pub Any : World k → Type 0
  Any w = ◌≡◌ {A = ℕ} 0 0

  pub staged :
      {m p : Option ℕ} {es : List Event} {w : World k} {t : Stage}
      → Trace m p es w
      → Trace m p es (record w { stage = t })
  staged a = record { events = a.events; map_fd = a.map_fd; prog_fd = a.prog_fd }

  pub asked :
      {A : Type 0} {m p : Option ℕ} {es : List Event} (e : Option A → Event) (o : Option A)
      (w : World k) (s : k.State) (cs : Counts)
      → Trace m p es w
      → Ends
          (λ a v. Trace m p (es ++ (e (some a) ∷ [])) v)
          Any
          (o, add k (e o) (record w { kernel = s; counts = cs }))
  asked e none w s cs a = leaves refl
  asked e (some v) w s cs a = goes (record {
    events = ap (λ l. l ++ (e (some v) ∷ [])) a.events;
    map_fd = a.map_fd;
    prog_fd = a.prog_fd;
  })

  pub answered :
      {m p : Option ℕ} {es : List Event} (e : Bool → Event) (b : Bool) (w : World k) (s : k.State)
      (cs : Counts)
      → Trace m p es w
      → Ends
          (λ (_ : Bool) v. Trace m p (es ++ (e true ∷ [])) v)
          Any
          (if b then some true else none, add k (e b) (record w { kernel = s; counts = cs }))
  answered e false w s cs a = leaves refl
  answered e true w s cs a = goes (record {
    events = ap (λ l. l ++ (e true ∷ [])) a.events;
    map_fd = a.map_fd;
    prog_fd = a.prog_fd;
  })

  pub create_map-Trace :
      (w : World k)
      → Trace none none [] w
      → Ends (λ m v. Trace (some m) none (creates (some m) ∷ []) v) Any (create_map k w)
  unfolding create_map
  create_map-Trace w a = made (k.create w.kernel).0
    where
      made :
          (o : Option ℕ)
          → Ends
              (λ m v. Trace (some m) none (creates (some m) ∷ []) v)
              Any
              (
                o,
                add k (creates o) (record w {
                  kernel = (k.create w.kernel).1;
                  map_fd = o;
                  counts = record (w.counts) { map_creates = bump w.counts.map_creates };
                }),
              )
      made none = leaves refl
      made (some m) = goes (record {
        events = ap (λ l. l ++ (creates (some m) ∷ [])) a.events;
        map_fd = refl;
        prog_fd = a.prog_fd;
      })

  pub load_program-Trace :
      (m : Option ℕ) (es : List Event) (is : List Insn) (w : World k)
      → Trace m none es w
      → Ends (λ p v. Trace m (some p) (es ++ (loads is (some p) ∷ [])) v) Any (load_program k is w)
  unfolding load_program
  load_program-Trace m es is w a = made (k.load is w.kernel).0
    where
      made :
          (o : Option ℕ)
          → Ends
              (λ p v. Trace m (some p) (es ++ (loads is (some p) ∷ [])) v)
              Any
              (
                o,
                add k (loads is o) (record w {
                  kernel = (k.load is w.kernel).1;
                  prog_fd = o;
                  counts = record (w.counts) { prog_loads = bump w.counts.prog_loads };
                }),
              )
      made none = leaves refl
      made (some p) = goes (record {
        events = ap (λ l. l ++ (loads is (some p) ∷ [])) a.events;
        map_fd = a.map_fd;
        prog_fd = refl;
      })
