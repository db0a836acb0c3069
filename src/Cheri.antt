-- ===== src/Cheri.antt =====
-- The CHERI intrinsics of <cheriintrin.h> and <linux/cheri.h>, which are not in the repository: an
-- argument of the code that uses them, with the laws that it relies on.
use c_bpf.Base.{ℕ, ◌^◌, ◌<◌, Bool, true, false, ◌≡◌}

pub record Cheri : Type 1 where
  pub Cap : Type 0
  -- `(void *)0`.
  pub null : Cap
  -- The conversion of an integer, `(uintcap_t)n`.
  pub integer : ℕ → Cap
  pub tag_get : Cap → Bool
  pub is_sealed : Cap → Bool
  pub address_get : Cap → ℕ
  pub base_get : Cap → ℕ
  pub length_get : Cap → ℕ
  pub perms_get : Cap → ℕ
  pub address_set : Cap → ℕ → Cap
  pub bounds_set_exact : Cap → ℕ → Cap
  pub perms_and : Cap → ℕ → Cap
  pub perms_clear : Cap → ℕ → Cap
  pub sentry_create : Cap → Cap
  pub tag_clear : Cap → Cap
  pub is_equal_exact : Cap → Cap → Bool

-- What the documentation of the intrinsics says of them, as far as the code relies on it.
pub record IsCheri (c : Cheri) : Type 0 where
  -- Exact comparison is comparison of tag, bounds, permissions and address at once.
  pub equal_sound : (a b : c.Cap) → c.is_equal_exact a b ≡ true → a ≡ b
  pub equal_refl : (a : c.Cap) → c.is_equal_exact a a ≡ true
  pub null_untagged : c.tag_get c.null ≡ false
  pub integer_untagged : (n : ℕ) → c.tag_get (c.integer n) ≡ false
  pub clear_untagged : (a : c.Cap) → c.tag_get (c.tag_clear a) ≡ false
  pub clear_address : (a : c.Cap) → c.address_get (c.tag_clear a) ≡ c.address_get a
  pub integer_address : (n : ℕ) → n < 2 ^ 64 → c.address_get (c.integer n) ≡ n
