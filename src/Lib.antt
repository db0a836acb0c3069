-- ===== src/Lib.antt =====
-- cBPF: acquisitions whose rights are held in protected cells, and handles that name the cells. The
-- repository has a host reference interpreter of a small instruction set (src/cbpf.c), an
-- interpreter of the same programs over trusted gates (src/gate.c), and two kernel versions of the
-- gates: native code with a bounded compiler (linux/ownership) and ordinary kfuncs (linux/kfunc).
--
-- The files, and the code that they model:
-- Ir: src/cbpf.h, the instructions, results and events; `record` of both interpreters is `log`.
--   Ir/Names has the name tables and Ir/Validate `cbpf_validate` of src/cbpf.c.
-- Reference: `cbpf_run` of src/cbpf.c. `exec` is the switch, `settle` the code behind it, `round` a
--   round of the loop, `clean` the loop at the label `finish`.
-- Cheri: the CHERI intrinsics, an argument of everything that uses them.
-- Gate: `cbpf_gate_run` of src/gate.c with the gates `acquire`, `read_field`, `consume`, `release`
--   and `identify`. Gate/Platform has the two builds, on either side of the `#ifdef`.
-- Runtime: linux/ownership/cbpf_runtime.c, `cbpf_exact` to `cbpf_gate_impl`; Runtime/Invoke is
--   `cbpf_test_invoke` and what the gateway does with a failure, and Runtime/Enter `cbpf_enter`.
--   Runtime/Gateway is the assembly of `cbpf_gateway`, with the instructions that it uses as steps of
--   a core; Runtime/Gateway/Frame has its stack frame. Runtime/Registers has the registers that
--   `cbpf_test_invoke` saves. Their copies, `saved_rddc` and `saved_rcsp`, stay in its stack frame:
--   what is said of the invocation's cells and views is not said of them.
--   Runtime/SelfTest is the controls at boot, which Checks/SelfTests runs.
-- Jit: linux/ownership/cbpf_jit.c, `call_operation`, `cbpf_jit_match`, `join` and `admit`.
--   Jit/Execution is what a compiled instruction does, by which the admission pass is judged.
--   Jit/Emit is `word` and the notes of the two passes; a part of the generator is the list of
--   statements that it performs, in Jit/Emit/Templates. Jit/Compile is `generate` and
--   `cbpf_jit_compile`, and Jit/Image what the image holds.
-- Native: a program that linux/ownership/cbpf_jit.c admits, run on the gates of cbpf_runtime.c;
--   its fuel is its length, which Native/Calls shows is enough.
-- Kfunc: linux/kfunc/cbpf_kfunc.c, the three kfuncs and their counters. They dereference a handle with
--   no check; where no allocation stands, that is undefined in C and the model has no result.
-- KfuncGuest: linux/kfunc/guest.c, the program builder; KfuncGuest/Programs has the programs,
--   KfuncGuest/Session the checks and `main` from the initial accounting on, over an interface of the
--   kernel, and KfuncGuest/Startup what comes before and the whole of `main`.
-- OwnershipGuest: the fixtures of linux/ownership/guest.c, which Checks/Guests tries;
--   OwnershipGuest/Session is `run_case` and `main`, over an interface of the kernel.
-- SpatialGuest: linux/spatial/native-guest.c, likewise; SpatialGuest/Control is `run_control` and `main`.
-- Demo: the programs and checks of src/demo.c, which Checks/Demos runs; Demo/Boundaries is
--   `execution_boundaries`.
-- CheriDemo: src/cheri_demo.c over the intrinsics and the processes that it starts; CheriDemo/Stale is
--   about the reads that have to fault.
-- GateDemo: src/gate_demo.c, `check_case` and its comparisons; GateDemo/Cases is `build_case`,
--   GateDemo/Corpus `corpus`, `boundaries` and `main`, over any check of a case. Gate/Metering has
--   the tallies of `expected_metrics`.
-- Bridge: tools/conformance_bridge.c, over any interpreter; Bridge/Reading is a reader of its words.
-- Base has the shared names; Checks the tests and the concrete instances of the theorems.
--
-- Gate works on programs of Ir and reports results of Ir, as Reference does. Runtime takes the
-- generated code as an `Execution`: the calls that it would make, in turn, and its scalar. GateDemo
-- runs Reference and Gate side by side, and Bridge hands on what Reference reports.
--
-- Bounds: a loop of an interpreter has a fuel of one more than the length of the program, which is
-- enough since a branch goes forward. The C `unsigned` counters of the interpreters are numbers, as
-- at most 64 instructions run; the counters of the kernel wrap at 32 and 64 bits. Immediates are
-- integers, cut to a word where the C code casts them.
--
-- Not modelled: the printed lines but for `cbpf_trace`; the meaning of the machine words that the
-- compiler emits, whose encoders are not in the repository; module glue; the power off of the guests;
-- the patches of linux/spatial; scripts and recorded evidence.
pub mod Base
pub mod Ir
pub mod Cheri
pub mod Reference
pub mod Gate
pub mod GateDemo
pub mod Runtime
pub mod Kfunc
pub mod KfuncGuest
pub mod Jit
pub mod Native
pub mod CheriDemo
pub mod SpatialGuest
pub mod OwnershipGuest
pub mod Bridge
pub mod Demo
pub mod Checks
