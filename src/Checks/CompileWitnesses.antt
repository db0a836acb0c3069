-- ===== src/Checks/CompileWitnesses.antt =====
-- The theorems on `cbpf_jit_compile` of linux/ownership/cbpf_jit.c at a concrete program.
use c_bpf.Base.{◌+◌, ◌*◌, ◌%◌, ◌^◌, ◌≡◌, ◌↔◌, ◌==◌, if◌then◌else◌, refl, true, false, arith}
use c_bpf.Jit.Admit.{Table, admit, admitted}
use c_bpf.Jit.Emit.Templates.{Encoder, Config, statements}
use c_bpf.Jit.Emit.Encodable.Words.{IsEncoder}
use c_bpf.Jit.Compile.{Program, Native, compiled, Memory, Marks, cbpf_jit_compile}
use c_bpf.Jit.Image.{IsSuitable, IsImage, compile-IsImage, compile_iff}
use c_bpf.Checks.JitWitnesses.{linkage, acquire_release, table, acquire_release_admitted}

-- An encoder whose words all have a highest byte below that of a BRK.
abbrev encoder : Encoder
encoder = record {
  fault = 0xd4 * 2 ^ 24;
  fp = 29;
  lr = 30;
  sp = 31;
  zr = 31;
  bti_jc = 1;
  nop = 2;
  paciasp = 3;
  autiasp = 4;
  mov = λ d n. 2 ^ 20 + d + 32 * n;
  push = λ a b s. 2 ^ 21 + a + 32 * b + 1024 * s;
  pop = λ a b s. 2 ^ 22 + a + 32 * b + 1024 * s;
  add_i = λ d n v. 2 ^ 24 + d + 32 * n + 1024 * v;
  sub_i = λ d n v. 2 ^ 25 + d + 32 * n + 1024 * v;
  movz = λ d v s. if s % 16 == 0 then 2 ^ 26 + d + 32 * v else 0xd4 * 2 ^ 24;
  movk = λ d v s. if s % 16 == 0 then 2 ^ 27 + d + 32 * v else 0xd4 * 2 ^ 24;
  str64i = λ t n v. if v % 8 == 0 then 2 ^ 28 + t + 32 * n + 1024 * v else 0xd4 * 2 ^ 24;
  adr = λ d v. 2 ^ 29 + d;
  cbz = λ t v. 2 ^ 30 + t;
  b = λ v. 5;
  blr = λ n. 2 ^ 23 + n;
  ret = λ n. 2 ^ 23 + 32 + n;
}

encoder-IsEncoder : IsEncoder encoder
encoder-IsEncoder = record {
  brk = refl;
  fp = omega arith;
  lr = omega arith;
  sp = omega arith;
  zr = omega arith;
  bti_jc = λ e. omega (arith, e);
  nop = λ e. omega (arith, e);
  paciasp = λ e. omega (arith, e);
  autiasp = λ e. omega (arith, e);
  mov = λ d n hd hn e. omega (arith, hd, hn, e);
  push = λ a b s ha hb hs e. omega (arith, ha, hb, hs, e);
  pop = λ a b s ha hb hs e. omega (arith, ha, hb, hs, e);
  add_i = λ d n v hd hn hv e. omega (arith, hd, hn, hv, e);
  sub_i = λ d n v hd hn hv e. omega (arith, hd, hn, hv, e);
  movz = λ d v s hd hv hs al e. ground (arith, hd, hv, al, e);
  movk = λ d v s hd hv hs al e. ground (arith, hd, hv, al, e);
  str64i = λ t n v ht hn hv al e. ground (arith, ht, hn, hv, al, e);
  adr = λ d v hd hv e. omega (arith, hd, e);
  cbz = λ t v ht hv e. omega (arith, ht, e);
  b = λ v hv e. omega (arith, e);
  blr = λ n hn e. omega (arith, hn, e);
  ret = λ n hn e. omega (arith, hn, e);
}

abbrev config : Config
config = record {
  bti = true;
  ptr_auth = false;
  prog_address = 0x1234_5678;
  enter_address = 2 ^ 40 + 7;
}

abbrev memory : Memory
memory = record { context = true; binary = true }

abbrev loaded : Program
loaded = record {
  jit_requested = true;
  blinding_enabled = false;
  is_sched_cls = true;
  is_func = false;
  func_cnt = 0;
  func_info_cnt = 0;
  used_map_cnt = 0;
  insns = acquire_release;
}

loaded-IsSuitable : IsSuitable loaded
loaded-IsSuitable = record {
  requested = refl;
  unblinded = refl;
  sched_cls = refl;
  main = refl;
  no_funcs = refl;
  no_func_info = refl;
  no_maps = refl;
  nonempty = omega arith;
  bounded = omega arith;
}

abbrev unmarked : Marks
unmarked = record { cbpf_gate = false; jited = false; jited_len = 0 }

compile-IsImage_example :
    (r : Native) × (cbpf_jit_compile encoder config linkage memory loaded unmarked
      ≡ (record { cbpf_gate = true; jited = true; jited_len = r.words * 4 }, compiled r))
    × IsImage (statements encoder config table.operation acquire_release) r
compile-IsImage_example =
    compile-IsImage encoder config linkage memory loaded unmarked table encoder-IsEncoder
      loaded-IsSuitable acquire_release_admitted refl refl

compile_iff_example :
    ((r : Native) × ((cbpf_jit_compile encoder config linkage memory loaded unmarked).1
        ≡ compiled r))
    ↔ (IsSuitable loaded
        × (memory.context ≡ true)
        × (memory.binary ≡ true)
        × ((t : Table) × (admit linkage acquire_release ≡ admitted t)))
compile_iff_example = compile_iff encoder config linkage memory loaded unmarked encoder-IsEncoder
