-- ===== src/KfuncGuest/Programs.antt =====
-- linux/kfunc/guest.c: the programs of the guest.
pub mod Loadable
use c_bpf.Base.{ℕ, suc, ◌+◌, Bool, true, false, ◌||◌, ◌==◌, if◌then◌else◌, ℤ, pos, negsuc, is, flag}
use c_bpf.Jit.{exit}
use c_bpf.KfuncGuest.{
  ins, Program, empty, emit, mov, imm, call_id, null_branch, forward_to, finish, save_alias,
  alias_arg,
}

-- The numbers in kfunc_ids.h.
pub record Ids : Type 0 where
  pub acquire : ℤ
  pub read : ℤ
  pub release : ℤ

pub data Rejection : Type 0 where
  stale_copy stale_spill double_release no_null leak : Rejection

module _ (ids : Ids) where
  -- An acquisition with `want_null`, the PC of the branch behind it, and a copy of the handle.
  abbrev acquired : Program → ℤ → ℕ → ℕ × Program
  acquired p want_null r =
      let (branch, p) = null_branch (call_id (imm p 1 want_null) ids.acquire) in (branch, mov p r 0)

  -- `valid_ab` from the release of A on, with both branches.
  unfoldable pub use_b : ℕ → ℤ → ℕ → ℕ → Program → Program
  unfolding emit mov call_id forward_to finish alias_arg
  use_b b spill a_null b_null p =
      let p = call_id (alias_arg p spill) ids.release in
      let p = mov (call_id (mov p 1 b) ids.read) 9 0 in
      let p = call_id (mov p 1 b) ids.release in
      let p = (emit (mov p 0 9) (ins exit 0 0 (pos 0) (pos 0))).1 in
      let p = forward_to p b_null p.count in
      let p = finish (call_id (alias_arg p spill) ids.release) (pos 7) in
      finish (forward_to p a_null p.count) (pos 0)

  unfoldable pub valid_ab : ℕ → ℤ → Bool → Program
  unfolding emit mov imm call_id null_branch save_alias use_b
  valid_ab a spill null_b =
      let b : ℕ = if a == 6 then 7 else 6 in
      let (a_null, p) = acquired empty (pos 0) a in
      let (b_null, p) = acquired (save_alias p a spill) (pos (flag null_b)) b in
      use_b b spill a_null b_null p

  unfoldable pub valid_null : Program
  unfolding emit mov imm call_id null_branch forward_to finish
  valid_null =
      let (branch, p) = acquired empty (pos 1) 1 in
      let p = finish (call_id p ids.release) (pos 13) in
      finish (forward_to p branch p.count) (pos 0)

  -- What the five probes do with the handle in register 6.
  abbrev probe : Rejection → Program → Program
  probe stale_copy p =
      call_id (alias_arg (call_id (mov (save_alias p 6 (pos 0)) 1 6) ids.release) (pos 0)) ids.read
  probe stale_spill p =
      call_id (alias_arg (call_id (mov (save_alias p 6 (negsuc 7)) 1 6) ids.release) (negsuc 7))
        ids.read
  probe double_release p =
      call_id (alias_arg (call_id (mov (save_alias p 6 (pos 0)) 1 6) ids.release) (pos 0))
        ids.release
  probe no_null p = call_id (mov (call_id (mov p 1 6) ids.read) 1 6) ids.release
  probe leak p = p

  abbrev is_no_null : Rejection → Bool
  is_no_null no_null = true
  is_no_null _ = false

  unfoldable pub rejected_program : Rejection → Program
  unfolding emit mov imm call_id null_branch forward_to finish save_alias alias_arg
  rejected_program kind =
      let p = call_id (imm empty 1 (pos 0)) ids.acquire in
      let (branch, p) = if is_no_null kind then (0, p) else null_branch p in
      let p = probe kind (mov p 6 0) in
      finish (if is_no_null kind then p else forward_to p branch p.count) (pos 0)
