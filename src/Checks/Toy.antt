-- ===== src/Checks/Toy.antt =====
-- A concrete capability machine and a concrete counter, which meet the laws that the theorems ask.
use Prim.Native.Nat.{bit_and}
use c_bpf.Base.{ℕ, ◌+◌, ◌-◌, ◌*◌, ◌≡◌, refl, Bool, true, false, not, ◌&&◌, ◌==◌, arith}
use c_bpf.Cheri.{Cheri, IsCheri}
use c_bpf.Runtime.{Kernel, Refcount, IsRefcount}

pub record ToyCap : Type 0 where
  pub tag : Bool
  pub sealed : Bool
  pub address : ℕ
  pub base : ℕ
  pub length : ℕ
  pub perms : ℕ

abbrev pub integer : ℕ → ToyCap
integer n = record { tag = false; sealed = false; address = n; base = 0; length = 0; perms = 0 }

abbrev same_bool : Bool → Bool → Bool
same_bool true b = b
same_bool false b = not b

abbrev same_cap : ToyCap → ToyCap → Bool
same_cap a b =
    same_bool a.tag b.tag
    && same_bool a.sealed b.sealed
    && a.address == b.address
    && a.base == b.base
    && a.length == b.length
    && a.perms == b.perms

abbrev pub toy_cheri : Cheri
toy_cheri = record {
  Cap = ToyCap;
  null = integer 0;
  integer = integer;
  tag_get = λ c. c.tag;
  is_sealed = λ c. c.sealed;
  address_get = λ c. c.address;
  base_get = λ c. c.base;
  length_get = λ c. c.length;
  perms_get = λ c. c.perms;
  address_set = λ c n. record c { address = n };
  bounds_set_exact = λ c n. record c { base = c.address; length = n };
  perms_and = λ c n. record c { perms = bit_and c.perms n };
  perms_clear =
      λ c n. record c { tag = c.tag && not c.sealed; perms = c.perms - bit_and c.perms n };
  sentry_create = λ c. record c { sealed = true };
  tag_clear = λ c. record c { tag = false };
  is_equal_exact = same_cap;
}

pub same_cap_sound : (a b : ToyCap) → same_cap a b ≡ true → a ≡ b
same_cap_sound a b h = ground arith

pub same_cap_refl : (a : ToyCap) → same_cap a a ≡ true
same_cap_refl a = ground arith

abbrev pub toy_cheri-IsCheri : IsCheri toy_cheri
toy_cheri-IsCheri = record {
  equal_sound = same_cap_sound;
  equal_refl = same_cap_refl;
  null_untagged = refl;
  integer_untagged = λ n. refl;
  clear_untagged = λ a. refl;
  clear_address = λ a. refl;
  integer_address = λ n h. refl;
}

abbrev pub toy_refcount : Refcount
toy_refcount = record { Count = ℕ; inc = λ n. n + 1; dec = λ n. n - 1; value = λ n. n }

pub toy_refcount-IsRefcount : IsRefcount toy_refcount
toy_refcount-IsRefcount = record { value-inc = λ n lo hi. refl; value-dec = λ n lo. omega arith }

-- All of the address space, with the permissions that `p` has.
abbrev pub root_cap : ℕ → ToyCap
root_cap p = record { tag = true; sealed = false; address = 0; base = 0; length = 2000; perms = p }

abbrev pub toy_kernel : Kernel
toy_kernel = record {
  cheri = toy_cheri;
  refcount = toy_refcount;
  ddc = root_cap 127;
  cell_address = λ i. 1000 + 16 * i;
  object_address = 512;
  object_size = 8;
  public_perms = 3;
}
