-- ===== src/SpatialGuest/Control.antt =====
-- linux/spatial/native-guest.c: the commands, `run_control` and `main`.
use c_bpf.Base.{
  ℕ, Bool, true, false, not, ◌&&◌, ◌||◌, Option, none, some, List, [], ◌==◌, if◌then◌else◌,
}
use c_bpf.SpatialGuest.{
  Insn, program, MapInfo, ProgInfo, Bytes, initial_value, same_bytes, creates, describes, updates,
  looks, loads, inspects, waits, runs, closes, Kernel, map_create, map_info, map_initialize,
  program_load, program_info_size, program_info_complete, authorization, test_run, map_readback,
  complete, Counts, bump, map_fits, sizing_fits, image_fits, World, Action, ◌>>=◌, ◌>>◌, done,
  require, enter, add,
}

module _ (k : Kernel) where
  -- BPF_MAP_CREATE.
  unfoldable pub create_map : Action k ℕ
  create_map w =
      let r = k.create w.kernel in
      (
        r.0,
        add k (creates r.0) (record w {
          kernel = r.1;
          map_fd = r.0;
          counts = record (w.counts) { map_creates = bump w.counts.map_creates };
        }),
      )

  -- `get_info` of the map.
  unfoldable pub describe_map : ℕ → Action k MapInfo
  describe_map fd w =
      let r = k.describe fd w.kernel in
      (
        r.0,
        add k (describes fd r.0)
            (record w { kernel = r.1; counts = record (w.counts) { infos = bump w.counts.infos } }),
      )

  -- BPF_MAP_UPDATE_ELEM.
  unfoldable pub update_map : ℕ → Bytes → Action k Bool
  update_map fd v w =
      let r = k.update fd v w.kernel in
      (
        if r.0 then some true else none,
        add k (updates fd v r.0) (record w {
          kernel = r.1;
          counts = record (w.counts) { map_updates = bump w.counts.map_updates };
        }),
      )

  unfoldable pub read_value : ℕ → Action k Bytes
  read_value fd w =
      let r = k.lookup fd w.kernel in
      (
        r.0,
        add k (looks fd r.0) (record w {
          kernel = r.1;
          counts = record (w.counts) { map_lookups = bump w.counts.map_lookups };
        }),
      )

  -- BPF_PROG_LOAD.
  unfoldable pub load_program : List Insn → Action k ℕ
  load_program insns w =
      let r = k.load insns w.kernel in
      (
        r.0,
        add k (loads insns r.0) (record w {
          kernel = r.1;
          prog_fd = r.0;
          counts = record (w.counts) { prog_loads = bump w.counts.prog_loads };
        }),
      )

  -- `get_info` of the program.
  unfoldable pub inspect_program : ℕ → Option ProgInfo → Action k ProgInfo
  inspect_program fd buffers w =
      let r = k.inspect fd buffers w.kernel in
      (
        r.0,
        add k (inspects fd r.0)
            (record w { kernel = r.1; counts = record (w.counts) { infos = bump w.counts.infos } }),
      )

  -- `fgets` and its comparison.
  unfoldable pub wait_for_authorization : Action k Bool
  wait_for_authorization w =
      let r = k.authorize w.kernel in
      (if r.0 then some true else none, add k (waits r.0) (record w { kernel = r.1 }))

  -- BPF_PROG_TEST_RUN.
  unfoldable pub run_program : ℕ → Action k ℕ
  run_program fd w =
      let r = k.test_run fd w.kernel in
      (
        r.0,
        add k (runs fd r.0) (record w {
          kernel = r.1;
          counts = record (w.counts) { test_runs = bump w.counts.test_runs };
        }),
      )

  abbrev pub count : Action k Counts
  count w = (some w.counts, w)

  -- The map and its first contents; its descriptor and description.
  unfoldable pub prepare_map : Action k (ℕ × MapInfo)
  prepare_map = do
    enter map_create
    map_fd ← create_map
    enter map_info
    map ← describe_map map_fd
    require (map_fits map)
    enter map_initialize
    update_map map_fd initial_value
    first ← read_value map_fd
    require (same_bytes 7 first initial_value)
    done (map_fd, map)

  -- The program, and its image as the two answers tell.
  unfoldable pub prepare_program : ℕ → MapInfo → Action k ℕ
  prepare_program map_fd map = do
    enter program_load
    prog_fd ← load_program (program map_fd)
    enter program_info_size
    sizing ← inspect_program prog_fd none
    require (sizing_fits sizing)
    enter program_info_complete
    info ← inspect_program prog_fd (some sizing)
    require (image_fits map sizing info)
    done prog_fd

  -- Execution and the readback.
  unfoldable pub execute : ℕ → ℕ → Action k Bool
  execute map_fd prog_fd = do
    enter authorization
    wait_for_authorization
    enter test_run
    retval ← run_program prog_fd
    enter map_readback
    last ← read_value map_fd
    require (retval == 42 && last 6 == 42 && same_bytes 6 last initial_value)
    c ← count
    require (c.map_creates == 1 && c.map_updates == 1 && c.prog_loads == 1 && c.test_runs == 1)
    enter complete
    done true

  unfoldable pub control : Action k Bool
  control = do
    (map_fd, map) ← prepare_map
    prog_fd ← prepare_program map_fd map
    execute map_fd prog_fd

  abbrev pub close_fd : Option ℕ → World k → World k
  close_fd none w = w
  close_fd (some fd) w = add k (closes fd) (record w { kernel = k.close fd w.kernel })

  -- Behind `out`: the program's descriptor, then the map's.
  abbrev pub close_all : World k → World k
  close_all w = close_fd w.map_fd (close_fd w.prog_fd w)

  abbrev pub start : k.State → World k
  start s = record {
    kernel = s;
    map_fd = none;
    prog_fd = none;
    counts = record {
      map_creates = 0;
      map_updates = 0;
      map_lookups = 0;
      prog_loads = 0;
      test_runs = 0;
      infos = 0;
    };
    stage = map_create;
    events = [];
  }

  abbrev pub passed : {A : Type 0} → Option A → Bool
  passed (some a) = true
  passed none = false

  -- Whether the control passes, and the world at the end.
  unfoldable pub run_control : k.State → Bool × World k
  run_control s = let r = control (start s) in (passed r.0, close_all r.1)

  -- `none` outside the dedicated guest.
  unfoldable pub main : k.State → Option (Bool × World k)
  main s =
      if not (k.pid == 1) || k.uname_fails || not k.release_matches
      then none
      else some (run_control s)
