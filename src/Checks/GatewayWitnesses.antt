-- ===== src/Checks/GatewayWitnesses.antt =====
-- The theorem on the gateway at a concrete core, and a gate that leaves nothing of the registers.
use c_bpf.Base.{◌≡◌, ◌==◌, refl, false, some, if◌then◌else◌, arith}
use c_bpf.Runtime.{u64_max}
use c_bpf.Runtime.Gateway.{Core, x, word, exec, cbpf_gateway, KeepsFrame}
use c_bpf.Runtime.Gateway.Scrub.{IsCall, IsReturn, gateway_scrubs}
use c_bpf.Checks.Toy.{ToyCap, toy_cheri, toy_cheri-IsCheri, integer, root_cap}

-- Answers 42.
abbrev clobbering : Core toy_cheri → Core toy_cheri
clobbering t = record t { reg = λ j. if j == 0 then integer 42 else root_cap 7 }

clobbering-KeepsFrame : KeepsFrame toy_cheri clobbering
clobbering-KeepsFrame = record {
  sp = λ t. refl;
  frame = λ t a lo hi. refl;
  answer = λ t. omega arith;
}

abbrev at_call : Core toy_cheri
at_call = record {
  reg = λ j. if j == 15 then integer 4096 else root_cap j;
  sp = 512;
  mem = λ a. word 0;
  zero_flag = false;
}

gateway_scrubs_example :
    (t : Core toy_cheri) × IsCall toy_cheri toy_cheri-IsCheri at_call t
    × ((r : Core toy_cheri × ToyCap) × (exec toy_cheri clobbering 0 cbpf_gateway at_call ≡ some r)
        × IsReturn toy_cheri toy_cheri-IsCheri at_call
            ((clobbering t).reg 0)
            (x toy_cheri (clobbering t) 0 == u64_max)
            r)
gateway_scrubs_example =
    gateway_scrubs toy_cheri toy_cheri-IsCheri clobbering at_call clobbering-KeepsFrame
      (omega arith) (omega arith) (omega arith) refl
