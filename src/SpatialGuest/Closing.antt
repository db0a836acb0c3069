-- ===== src/SpatialGuest/Closing.antt =====
-- linux/spatial/native-guest.c: whatever the kernel does, the guest keeps the order and closes what it
-- opened.
use c_bpf.Base.{
  ℕ, ◌≡◌, refl, ap, ◌∙◌, Bool, true, false, not, ◌||◌, Option, none, some, ◌==◌, if◌then◌else◌,
  unguarded,
}
use mathlib.Core.Path.{subst}
use c_bpf.SpatialGuest.{
  program, MapInfo, initial_value, Event, creates, updates, loads, waits, Kernel, Stage, Counts,
  bump, World, add,
}
use c_bpf.SpatialGuest.Control.{
  create_map, describe_map, update_map, read_value, load_program, inspect_program,
  wait_for_authorization, run_program, prepare_map, prepare_program, execute, control, start,
  run_control, main,
}
use c_bpf.SpatialGuest.Ends.{Ends, goes, leaves, bind-Ends, require-Ends, enter-Ends, map-Ends}
use c_bpf.SpatialGuest.Order.{
  Phase, map_of, program_of, fresh, over, mapped, loaded, authorized, ran, Step, creating, failing,
  describing, updating, looking, refusing, loading, inspecting, denying, allowing, running, reading,
  Walk, stop, extend-Walk, At, Begun, Out, out, close_all-Walk,
}

module _ (k : Kernel) where
  moved :
      {p q : Phase} {e : Event} {w : World k} {s : k.State} {cs : Counts}
      → ◌≡◌ {A = Option ℕ × Option ℕ} (map_of p, program_of p) (map_of q, program_of q)
      → Step p e q
      → At k p w
      → At k q (add k e (record w { kernel = s; counts = cs }))
  moved same t a = record {
    walk = extend-Walk a.walk t;
    map_fd = a.map_fd ∙ ap (λ (x : Option ℕ × Option ℕ). x.0) same;
    prog_fd = a.prog_fd ∙ ap (λ (x : Option ℕ × Option ℕ). x.1) same;
  }

  -- A request that opens nothing, and after which the guest stands in `q`.
  asked :
      {A : Type 0} (p q : Phase) (e : Event) (o : Option A) (w : World k) (s : k.State)
      (cs : Counts)
      → ◌≡◌ {A = Option ℕ × Option ℕ} (map_of p, program_of p) (map_of q, program_of q)
      → Begun q
      → Step p e q
      → At k p w
      → Ends (λ _ v. At k q v) (Out k) (o, add k e (record w { kernel = s; counts = cs }))
  asked p q e none w s cs same b t a = leaves (out k q b (moved same t a))
  asked p q e (some v) w s cs same b t a = goes (moved same t a)

  create_map-Ends :
      (w : World k) → At k fresh w → Ends (λ m v. At k (mapped m) v) (Out k) (create_map k w)
  unfolding create_map
  create_map-Ends w a = made (k.create w.kernel).0
    where
      made :
          (o : Option ℕ)
          → Ends
              (λ m v. At k (mapped m) v)
              (Out k)
              (
                o,
                add k (creates o) (record w {
                  kernel = (k.create w.kernel).1;
                  map_fd = o;
                  counts = record (w.counts) { map_creates = bump w.counts.map_creates };
                }),
              )
      made none = leaves (
          out k over refl
            (record { walk = extend-Walk a.walk failing; map_fd = refl; prog_fd = a.prog_fd }))
      made (some m) =
          goes
            (record { walk = extend-Walk a.walk (creating m); map_fd = refl; prog_fd = a.prog_fd })

  load_program-Ends :
      (m : ℕ) (w : World k)
      → At k (mapped m) w
      → Ends (λ p v. At k (loaded m p) v) (Out k) (load_program k (program m) w)
  unfolding load_program
  load_program-Ends m w a = made (k.load (program m) w.kernel).0
    where
      made :
          (o : Option ℕ)
          → Ends
              (λ p v. At k (loaded m p) v)
              (Out k)
              (
                o,
                add k (loads (program m) o) (record w {
                  kernel = (k.load (program m) w.kernel).1;
                  prog_fd = o;
                  counts = record (w.counts) { prog_loads = bump w.counts.prog_loads };
                }),
              )
      made none = leaves (
          out k (mapped m) refl
            (record { walk = extend-Walk a.walk (refusing m); map_fd = a.map_fd; prog_fd = refl }))
      made (some p) =
          goes
            (record { walk = extend-Walk a.walk (loading m p); map_fd = a.map_fd; prog_fd = refl })

  -- A request with a yes or a no.
  answered :
      (p q r : Phase) (e : Bool → Event) (b : Bool) (w : World k) (s : k.State) (cs : Counts)
      → ◌≡◌ {A = Option ℕ × Option ℕ} (map_of p, program_of p) (map_of q, program_of q)
      → ◌≡◌ {A = Option ℕ × Option ℕ} (map_of p, program_of p) (map_of r, program_of r)
      → Begun r
      → Step p (e true) q
      → Step p (e false) r
      → At k p w
      → Ends
          (λ (_ : Bool) v. At k q v)
          (Out k)
          (if b then some true else none, add k (e b) (record w { kernel = s; counts = cs }))
  answered p q r e true w s cs same same' b t f a = goes (moved same t a)
  answered p q r e false w s cs same same' b t f a = leaves (out k r b (moved same' f a))

  staged : {p : Phase} {w : World k} {t : Stage} → At k p w → At k p (record w { stage = t })
  staged a = record { walk = a.walk; map_fd = a.map_fd; prog_fd = a.prog_fd }

  prepare_map-Ends :
      (w : World k) → At k fresh w → Ends (λ x v. At k (mapped x.0) v) (Out k) (prepare_map k w)
  unfolding prepare_map describe_map update_map read_value
  prepare_map-Ends w a = enter-Ends _ _ w (
      bind-Ends _ _ _ _ (create_map-Ends _ (staged a)) (λ m w a. enter-Ends _ _ w (
        bind-Ends _ _ _ _
          (asked (mapped m) (mapped m) _ _ _ _ _ refl refl (describing m _) (staged a))
          (λ i w a. require-Ends _ _ w (out k (mapped m) refl a) (λ _. enter-Ends _ _ w (
            bind-Ends _ _ _ _
              (answered (mapped m) (mapped m) (mapped m) (updates m initial_value) _ _ _ _ refl refl
                refl (updating m true) (updating m false) (staged a))
              (λ _ w a.
                bind-Ends _ _ _ _ (asked (mapped m) (mapped m) _ _ _ _ _ refl refl (looking m _) a)
                  (λ v w a. require-Ends _ _ w (out k (mapped m) refl a) (λ _. goes a)))))))))

  prepare_program-Ends :
      (m : ℕ) (i : MapInfo) (w : World k)
      → At k (mapped m) w
      → Ends (λ p v. At k (loaded m p) v) (Out k) (prepare_program k m i w)
  unfolding prepare_program inspect_program
  prepare_program-Ends m i w a = enter-Ends _ _ w (
      bind-Ends _ _ _ _ (load_program-Ends m _ (staged a)) (λ p w a. enter-Ends _ _ w (
        bind-Ends _ _ _ _
          (asked (loaded m p) (loaded m p) _ _ _ _ _ refl refl (inspecting m p _) (staged a))
          (λ i w a. require-Ends _ _ w (out k (loaded m p) refl a) (λ _. enter-Ends _ _ w (
            bind-Ends _ _ _ _
              (asked (loaded m p) (loaded m p) _ _ _ _ _ refl refl (inspecting m p _) (staged a))
              (λ j w a. require-Ends _ _ w (out k (loaded m p) refl a) (λ _. goes a))))))))

  execute-Ends :
      (m p : ℕ) (w : World k)
      → At k (loaded m p) w
      → Ends (λ (_ : Bool) v. At k (ran m p) v) (Out k) (execute k m p w)
  unfolding execute wait_for_authorization run_program read_value
  execute-Ends m p w a = enter-Ends _ _ w (
      bind-Ends _ _ _ _
        (answered (loaded m p) (authorized m p) (loaded m p) waits _ _ _ _ refl refl refl
          (allowing m p) (denying m p) (staged a))
        (λ _ w a. enter-Ends _ _ w (
          bind-Ends _ _ _ _
            (asked (authorized m p) (ran m p) _ _ _ _ _ refl refl (running m p _) (staged a))
            (λ v w a. enter-Ends _ _ w (
              bind-Ends _ _ _ _
                (asked (ran m p) (ran m p) _ _ _ _ _ refl refl (reading m p _) (staged a))
                (λ last w a. require-Ends _ _ w (out k (ran m p) refl a) (λ _.
                  bind-Ends (λ _ v. At k (ran m p) v) _ _ w (goes a)
                    (λ c w a.
                      require-Ends _ _ w (out k (ran m p) refl a)
                        (λ _. enter-Ends _ _ w (goes (staged a)))))))))))

  control-Ends : (w : World k) → At k fresh w → Ends (λ (_ : Bool) v. Out k v) (Out k) (control k w)
  unfolding control
  control-Ends w a = bind-Ends _ _ _ w (prepare_map-Ends w a) (λ x w a.
      bind-Ends _ _ _ w (prepare_program-Ends x.0 x.1 w a)
        (λ p w a. map-Ends (λ _ v a. out k (ran x.0 p) refl a) (execute-Ends x.0 p w a)))

  Ends-Out : {r : Option Bool × World k} → Ends (λ (_ : Bool) v. Out k v) (Out k) r → Out k r.1
  Ends-Out (goes o) = o
  Ends-Out (leaves o) = o

  -- Whatever the kernel does, the guest asks in this order: it creates the map, and where that works
  -- describes, fills and reads it and loads the program on it; where that works it inspects the
  -- program, and runs it at most once, and only behind an authorization. At the end it has closed the
  -- program's descriptor, then the map's, each that it was given.
  pub main_order :
      (s : k.State) (b : Bool) (w : World k) → main k s ≡ some (b, w) → Walk fresh w.events over
  unfolding main run_control
  main_order s b w e =
      subst (λ (x : Bool × World k). Walk fresh x.1.events over)
        (unguarded (not (k.pid == 1) || k.uname_fails || not k.release_matches) e)
        (close_all-Walk k _ (
          Ends-Out
            (control-Ends (start k s) (record { walk = stop; map_fd = refl; prog_fd = refl }))))
