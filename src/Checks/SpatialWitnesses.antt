-- ===== src/Checks/SpatialWitnesses.antt =====
-- The theorems on linux/spatial/native-guest.c at a kernel that the guest passes on.
use c_bpf.Base.{ℕ, ◌≡◌, ◌==◌, refl, true, false, some, if◌then◌else◌}
use c_bpf.SpatialGuest.{Kernel, MapInfo, ProgInfo, initial_value, World, continue, ◌>>=◌, require}
use c_bpf.SpatialGuest.Control.{
  create_map, describe_map, update_map, read_value, load_program, inspect_program,
  wait_for_authorization, run_program, prepare_map, prepare_program, execute, control, run_control,
  main,
}
use c_bpf.SpatialGuest.Order.{Walk, fresh, over}
use c_bpf.SpatialGuest.Closing.{main_order}
use c_bpf.SpatialGuest.Pass.{IsWitness, main-IsWitness}

abbrev a_map : MapInfo
a_map = record {
  id = 5;
  is_array = true;
  key_size = 4;
  value_size = 7;
  max_entries = 2;
  map_flags = 0;
  ifindex = 0;
  btf_id = 0;
  btf_key_type_id = 0;
  btf_value_type_id = 0;
  btf_vmlinux_value_type_id = 0;
  map_extra = 0;
}

abbrev a_program : ProgInfo
a_program = record {
  is_socket_filter = true;
  id = 6;
  jited_prog_len = 128;
  xlated_prog_len = 120;
  nr_map_ids = 1;
  nr_jited_ksyms = 1;
  nr_jited_func_lens = 1;
  ifindex = 0;
  btf_id = 0;
  name_matches = true;
  pointers_kept = true;
  map_id = 5;
  native_entry = 4096;
  function_length = 128;
}

-- Its state is the last byte of the entry.
abbrev willing : Kernel
willing = record {
  State = ℕ;
  create = λ s. (some 3, s);
  describe = λ fd s. (some a_map, s);
  update = λ fd v s. (true, v 6);
  lookup = λ fd s. (some (λ i. if i == 6 then s else initial_value i), s);
  load = λ insns s. (some 4, s);
  inspect = λ fd buffers s. (some a_program, s);
  authorize = λ s. (true, s);
  test_run = λ fd s. (some 42, 42);
  close = λ fd s. s;
  pid = 1;
  uname_fails = false;
  release_matches = true;
}

abbrev ended : World willing
unfolding run_control
ended = (run_control willing 0).1

main-willing : main willing 0 ≡ some (true, ended)
unfolding main run_control ended control prepare_map prepare_program execute create_map describe_map
    update_map read_value load_program inspect_program wait_for_authorization run_program continue
    ◌>>=◌ require
main-willing = refl

main_order_example : Walk fresh ended.events over
main_order_example = main_order willing 0 true ended main-willing

main-IsWitness_example : IsWitness ended.events
main-IsWitness_example = main-IsWitness willing 0 ended main-willing
