-- ===== src/KfuncGuest/Programs/Loadable.antt =====
-- linux/kfunc/guest.c: the programs that the guest builds are complete.
use c_bpf.Base.{
  ℕ, ◌+◌, ◌-◌, ◌≤◌, ◌<◌, ◌≡◌, Bool, true, false, not, ◌&&◌, ltb, leb, if◌then◌else◌, ℤ, pos, negsuc,
}
use c_bpf.Jit.{Code, jeq_k, exit}
use c_bpf.GateDemo.{all_below}
use c_bpf.KfuncGuest.{Program, max_insns}

abbrev is_branch : Code → Bool
is_branch jeq_k = true
is_branch _ = false

abbrev is_exit : Code → Bool
is_exit exit = true
is_exit _ = false

abbrev goes_within : ℕ → ℕ → ℤ → Bool
goes_within pc n (pos d) = ltb (pc + 1 + d) n
goes_within pc n (negsuc d) = false

abbrev lands : Program → ℕ → Bool
lands p pc = if is_branch (p.insns pc).code then goes_within pc p.count (p.insns pc).off else true

-- A program that `load_program` takes: no step of the builder failed, the length is in range, every
-- branch goes forward to an instruction, and the last instruction is an exit.
pub record IsLoadable (p : Program) : Type 0 where
  pub sound : p.invalid ≡ false
  pub nonempty : 0 < p.count
  pub bounded : p.count ≤ max_insns
  pub forward :
      (pc : ℕ)
      → pc < p.count
      → (p.insns pc).code ≡ jeq_k
      → (d : ℕ) × ((p.insns pc).off ≡ pos d) × (pc + 1 + d < p.count)
  pub ends : (p.insns (p.count - 1)).code ≡ exit

loadable : Program → Bool
loadable p =
    not p.invalid
    && ltb 0 p.count
    && leb p.count max_insns
    && is_exit (p.insns (p.count - 1)).code
    && all_below p.count (lands p)
