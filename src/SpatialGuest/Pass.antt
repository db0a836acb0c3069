-- ===== src/SpatialGuest/Pass.antt =====
-- linux/spatial/native-guest.c: what a pass of the guest has shown.
use c_bpf.Base.{
  ℕ, ◌≡◌, refl, ap, ◌∙◌, Bool, true, not, ◌&&◌, ◌||◌, Option, none, some, List, [], ◌∷◌, ◌++◌, ◌==◌,
  unguarded, arith,
}
use mathlib.Core.Path.{subst}
use c_bpf.SpatialGuest.{
  program, MapInfo, ProgInfo, Bytes, initial_value, same_bytes, map_fits, sizing_fits, image_fits,
  Event, creates, describes, updates, looks, loads, inspects, waits, runs, closes, Kernel, Stage,
  World,
}
use c_bpf.SpatialGuest.Control.{
  describe_map, update_map, read_value, inspect_program, wait_for_authorization, run_program,
  prepare_map, prepare_program, execute, control, close_all, start, passed, run_control, main,
}
use c_bpf.SpatialGuest.Traces.{
  append_three, Trace, Any, staged, asked, answered, create_map-Trace, load_program-Trace,
}
use c_bpf.SpatialGuest.Ends.{Ends, goes, leaves, bind-Ends, require-Ends, enter-Ends, map-Ends}

-- What the guest has asked before it makes the program, before it executes it, and before it closes.
abbrev pub map_events : ℕ → MapInfo → Bytes → List Event
map_events m i first =
    creates (some m)
    ∷ describes m (some i)
    ∷ updates m initial_value true
    ∷ looks m (some first)
    ∷ []

abbrev pub image_events : ℕ → ℕ → ProgInfo → ProgInfo → List Event
image_events m p sizing image =
    loads (program m) (some p) ∷ inspects p (some sizing) ∷ inspects p (some image) ∷ []

abbrev pub run_events : ℕ → ℕ → Bytes → List Event
run_events m p last = waits true ∷ runs p (some 42) ∷ looks m (some last) ∷ []

-- A session that has shown the one write of the program.
pub record IsWitness (es : List Event) : Type 0 where
  pub m : ℕ
  pub p : ℕ
  pub map : MapInfo
  pub first : Bytes
  pub sizing : ProgInfo
  pub image : ProgInfo
  pub last : Bytes
  pub events :
      es
      ≡ map_events m map first
        ++ (image_events m p sizing image ++ (run_events m p last ++ (closes p ∷ closes m ∷ [])))
  pub map_fit : map_fits map ≡ true
  pub filled : same_bytes 7 first initial_value ≡ true
  pub sizing_fit : sizing_fits sizing ≡ true
  pub image_fit : image_fits map sizing image ≡ true
  pub written : last 6 ≡ 42
  pub prefix : same_bytes 6 last initial_value ≡ true

and_last : (a b c : Bool) → (a && b && c) ≡ true → c ≡ true
and_last a b c h = ground (arith, h)

module _ (k : Kernel) where
  -- What each part has shown where it goes on.
  record Mapped (m : ℕ) (i : MapInfo) (w : World k) : Type 0 where
    first : Bytes
    trace : Trace k (some m) none (map_events m i first) w
    fit : map_fits i ≡ true
    filled : same_bytes 7 first initial_value ≡ true

  prepare_map-Mapped :
      (w : World k)
      → Trace k none none [] w
      → Ends (λ x v. Mapped x.0 x.1 v) (Any k) (prepare_map k w)
  unfolding prepare_map describe_map update_map read_value
  prepare_map-Mapped w a = enter-Ends _ _ w (
      bind-Ends _ _ _ _ (create_map-Trace k _ (staged k a)) (λ m w a. enter-Ends _ _ w (
        bind-Ends _ _ _ _ (asked k (describes m) _ _ _ _ (staged k a)) (λ i w a.
          require-Ends _ _ w refl (λ fit. enter-Ends _ _ w (
            bind-Ends _ _ _ _ (answered k (updates m initial_value) _ _ _ _ (staged k a)) (λ _ w a.
              bind-Ends _ _ _ _ (asked k (looks m) _ _ _ _ a) (λ v w a.
                require-Ends _ _ w refl (λ filled.
                  goes (record { first = v; trace = a; fit = fit; filled = filled }))))))))))

  record Imaged (m : ℕ) (map : MapInfo) (first : Bytes) (p : ℕ) (w : World k) : Type 0 where
    sizing : ProgInfo
    image : ProgInfo
    trace : Trace k (some m) (some p) (map_events m map first ++ image_events m p sizing image) w
    sizing_fit : sizing_fits sizing ≡ true
    image_fit : image_fits map sizing image ≡ true

  prepare_program-Imaged :
      (m : ℕ) (map : MapInfo) (first : Bytes) (w : World k)
      → Trace k (some m) none (map_events m map first) w
      → Ends (λ p v. Imaged m map first p v) (Any k) (prepare_program k m map w)
  unfolding prepare_program inspect_program
  prepare_program-Imaged m map first w a = enter-Ends _ _ w (
      bind-Ends _ _ _ _ (load_program-Trace k _ _ _ _ (staged k a)) (λ p w a. enter-Ends _ _ w (
        bind-Ends _ _ _ _ (asked k (inspects p) _ _ _ _ (staged k a)) (λ i w a.
          require-Ends _ _ w refl (λ sizing_fit. enter-Ends _ _ w (
            bind-Ends _ _ _ _ (asked k (inspects p) _ _ _ _ (staged k a)) (λ j w a.
              require-Ends _ _ w refl (λ image_fit. goes (record {
                sizing = i;
                image = j;
                trace = a;
                sizing_fit = sizing_fit;
                image_fit = image_fit;
              })))))))))

  record Executed (m p : ℕ) (es : List Event) (w : World k) : Type 0 where
    last : Bytes
    trace : Trace k (some m) (some p) (es ++ run_events m p last) w
    written : last 6 ≡ 42
    prefix : same_bytes 6 last initial_value ≡ true

  execute_end :
      (m p : ℕ) (es : List Event) (v : ℕ) (last : Bytes) (w x : World k) (t : Stage)
      → Trace k
          (some m)
          (some p)
          (((es ++ (waits true ∷ [])) ++ (runs p (some v) ∷ [])) ++ (looks m (some last) ∷ []))
          w
      → (v == 42 && last 6 == 42 && same_bytes 6 last initial_value) ≡ true
      → x ≡ w
      → Executed m p es (record x { stage = t })
  execute_end m p es v last w x t a ok same = record {
    last = last;
    trace = record {
      events =
          ap (λ (y : World k). y.events) same
          ∙ a.events
          ∙ append_three es (waits true) (runs p (some v)) (looks m (some last))
          ∙ ap (λ n. es ++ (waits true ∷ runs p (some n) ∷ looks m (some last) ∷ []))
              (ground (arith, ok));
      map_fd = ap (λ (y : World k). y.map_fd) same ∙ a.map_fd;
      prog_fd = ap (λ (y : World k). y.prog_fd) same ∙ a.prog_fd;
    };
    written = ground (arith, ok);
    prefix = and_last (v == 42) (last 6 == 42) _ ok;
  }

  execute-Executed :
      (m p : ℕ) (es : List Event) (w : World k)
      → Trace k (some m) (some p) es w
      → Ends (λ (_ : Bool) v. Executed m p es v) (Any k) (execute k m p w)
  unfolding execute wait_for_authorization run_program read_value
  execute-Executed m p es w a = enter-Ends _ _ w (
      bind-Ends _ _ _ _ (answered k waits _ _ _ _ (staged k a)) (λ _ w a. enter-Ends _ _ w (
        bind-Ends _ _ _ _ (asked k (runs p) _ _ _ _ (staged k a)) (λ v w a. enter-Ends _ _ w (
          bind-Ends _ _ _ _ (asked k (looks m) _ _ _ _ (staged k a)) (λ last w a.
            require-Ends _ _ w refl (λ ok.
              bind-Ends (λ _ x. x ≡ w) _ _ w (goes refl)
                (λ c x same.
                  require-Ends _ _ x refl (λ _.
                    enter-Ends _ _ x (goes (execute_end m p es v last w x _ a ok same)))))))))))

  closed-IsWitness :
      (m p : ℕ) (map : MapInfo) (first : Bytes) (v : World k)
      → map_fits map ≡ true
      → same_bytes 7 first initial_value ≡ true
      → (w : World k) (b : Imaged m map first p w)
      → Executed m p (map_events m map first ++ image_events m p b.sizing b.image) v
      → IsWitness (close_all k v).events
  closed-IsWitness m p map first v fit filled w b x = record {
    m = m;
    p = p;
    map = map;
    first = first;
    sizing = b.sizing;
    image = b.image;
    last = x.last;
    events =
        rw (x.trace.prog_fd, x.trace.map_fd)
          (ap (λ l. (l ++ (closes p ∷ [])) ++ (closes m ∷ [])) x.trace.events);
    map_fit = fit;
    filled = filled;
    sizing_fit = b.sizing_fit;
    image_fit = b.image_fit;
    written = x.written;
    prefix = x.prefix;
  }

  control-IsWitness :
      (w : World k)
      → Trace k none none [] w
      → Ends (λ (_ : Bool) v. IsWitness (close_all k v).events) (Any k) (control k w)
  unfolding control
  control-IsWitness w a = bind-Ends _ _ _ w (prepare_map-Mapped w a) (λ x w a.
      bind-Ends _ _ _ w (prepare_program-Imaged x.0 x.1 a.first w a.trace) (λ p w b.
        map-Ends (λ _ v c. closed-IsWitness x.0 p x.1 a.first v a.fit a.filled w b c)
          (execute-Executed x.0 p _ w b.trace)))

  Ends-passed :
      {A : Type 0} {Q : World k → Type 0} {r : Option A × World k}
      → Ends (λ (_ : A) v. Q v) (Any k) r
      → passed k r.0 ≡ true
      → Q r.1
  Ends-passed (goes q) e = q
  Ends-passed (leaves r) e = ground (arith, e)

  run_control-IsWitness :
      (s : k.State) → (run_control k s).0 ≡ true → IsWitness (run_control k s).1.events
  unfolding run_control
  run_control-IsWitness s =
      Ends-passed
        (control-IsWitness (start k s) (record { events = refl; map_fd = refl; prog_fd = refl }))

  -- Whatever the kernel does, a guest that passes has asked for exactly this: it created the map and
  -- filled entry 1 with seven bytes, the last of them 41, and read them back; it loaded its program on
  -- that map, which an image fits that tells of the one map; it was authorized, ran the program once,
  -- which returned 42, and then read the same bytes back but for the last, which was 42; and it closed
  -- both descriptors.
  pub main-IsWitness : (s : k.State) (w : World k) → main k s ≡ some (true, w) → IsWitness w.events
  unfolding main
  main-IsWitness s w e =
      let q = unguarded (not (k.pid == 1) || k.uname_fails || not k.release_matches) e in
      subst (λ (x : Bool × World k). x.0 ≡ true → IsWitness x.1.events) q (run_control-IsWitness s)
        refl
