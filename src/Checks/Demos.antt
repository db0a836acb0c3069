-- ===== src/Checks/Demos.antt =====
-- The checks of src/demo.c pass.
use c_bpf.Base.{◌≡◌, refl, true}
use c_bpf.Ir.Validate.{cbpf_validate, insn_ok}
use c_bpf.Reference.{run_list, finish_run, loop, program, round, start, clean, clean_cell}
use c_bpf.Demo.{examples, conceptual_object_baseline, structural_controls}
use c_bpf.Demo.Boundaries.{execution_boundaries, steps_match, cleanups_match}

examples_pass : examples ≡ true
unfolding examples cbpf_validate insn_ok run_list finish_run loop program round start clean
    clean_cell
examples_pass = refl

structural_controls_pass : structural_controls ≡ true
unfolding structural_controls cbpf_validate insn_ok run_list finish_run loop program round start
    clean
structural_controls_pass = refl

execution_boundaries_pass : execution_boundaries ≡ true
unfolding execution_boundaries cbpf_validate insn_ok run_list finish_run loop program round start
    clean clean_cell steps_match cleanups_match
execution_boundaries_pass = refl

conceptual_object_baseline_passes : conceptual_object_baseline ≡ true
unfolding conceptual_object_baseline
conceptual_object_baseline_passes = refl
