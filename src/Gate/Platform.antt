-- ===== src/Gate/Platform.antt =====
-- src/gate.c: the two builds, on either side of `#ifdef __CHERI_PURE_CAPABILITY__`.
use c_bpf.Base.{
  ℕ, zero, suc, ◌<◌, Bool, true, false, Option, none, some, not, ◌||◌, ◌==◌, if◌then◌else◌, ◌≡◌,
  ◌≢◌, refl, sym, ◌∙◌, arith,
}
use c_bpf.Cheri.{Cheri, IsCheri}

-- A cell is named by its index; `object_ref` is `&s->object`, and `cleared o` what `consume` stores
-- over `o`.
pub record Build : Type 1 where
  pub Handle : Type 0
  pub Object : Type 0
  pub null_handle : Handle
  pub null_object : Object
  pub object_ref : Object
  pub prepare_view : ℕ → Option Handle
  pub same_handle : Handle → Handle → Bool
  pub object_is_live : Object → Bool
  pub cleared : Object → Object
  pub purecap : Bool
  pub cell_bytes : ℕ
  pub handle_bytes : ℕ

-- What both builds promise.
pub record IsFaithful (b : Build) : Type 0 where
  pub same_sound : (u v : b.Handle) → b.same_handle u v ≡ true → u ≡ v
  pub same_refl : (u : b.Handle) → b.same_handle u u ≡ true
  pub view_not_null : (i : ℕ) (v : b.Handle) → b.prepare_view i ≡ some v → v ≢ b.null_handle
  pub view_injective :
      (i j : ℕ) (v : b.Handle)
      → i < 2
      → j < 2
      → b.prepare_view i ≡ some v
      → b.prepare_view j ≡ some v
      → i ≡ j
  pub null_dead : b.object_is_live b.null_object ≡ false
  pub ref_live : b.object_is_live b.object_ref ≡ true
  pub cleared_dead : (o : b.Object) → b.object_is_live (b.cleared o) ≡ false

-- The host: a handle is NULL or a pointer to a cell, an object pointer NULL or the object's.
pub data ObjectPointer : Type 0 where
  null_pointer to_object : ObjectPointer

abbrev pub same_pointer : Option ℕ → Option ℕ → Bool
same_pointer none none = true
same_pointer (some i) (some j) = i == j
same_pointer _ _ = false

abbrev pub points : ObjectPointer → Bool
points null_pointer = false
points to_object = true

abbrev pub host : ℕ → Build
host pointer_bytes = record {
  Handle = Option ℕ;
  Object = ObjectPointer;
  null_handle = none;
  null_object = null_pointer;
  object_ref = to_object;
  prepare_view = λ i. some (some i);
  same_handle = same_pointer;
  object_is_live = points;
  cleared = λ _. null_pointer;
  purecap = false;
  cell_bytes = pointer_bytes;
  handle_bytes = pointer_bytes;
}

pub host-IsFaithful : (n : ℕ) → IsFaithful (host n)
host-IsFaithful n = record {
  same_sound = sound;
  same_refl = reflexive;
  view_not_null = λ i v e. ground arith;
  view_injective = λ i j v l l' e e'. ground arith;
  null_dead = refl;
  ref_live = refl;
  cleared_dead = λ o. refl;
}
  where
    sound : (u v : Option ℕ) → same_pointer u v ≡ true → u ≡ v
    sound none none h = refl
    sound none (some j) h = ground arith
    sound (some i) none h = ground arith
    sound (some i) (some j) h = ground arith

    reflexive : (u : Option ℕ) → same_pointer u u ≡ true
    reflexive none = refl
    reflexive (some i) = ground arith

-- The purecap build, over the intrinsics, the permissions LOAD | GLOBAL, the capabilities of the
-- private cells, of which there are two (`cell` is used at 0 and 1), and of the object, and
-- `sizeof(*private)`.
module _ (c : Cheri) (permissions size : ℕ) (cell : ℕ → c.Cap) (object : c.Cap) where
  -- The view, and the six tests on it.
  unfoldable pub prepare : ℕ → Option c.Cap
  prepare i =
      let view = c.perms_and (c.bounds_set_exact (cell i) size) permissions in
      if not (c.tag_get view)
        || c.is_sealed view
        || not (c.address_get view == c.address_get (cell i))
        || not (c.base_get view == c.address_get (cell i))
        || not (c.length_get view == size)
        || not (c.perms_get view == permissions)
      then none
      else some view

  abbrev pub purecap_build : Build
  purecap_build = record {
    Handle = c.Cap;
    Object = c.Cap;
    null_handle = c.null;
    null_object = c.null;
    object_ref = object;
    prepare_view = prepare;
    same_handle = c.is_equal_exact;
    object_is_live = c.tag_get;
    cleared = c.tag_clear;
    purecap = true;
    cell_bytes = size;
    handle_bytes = size;
  }

  -- What is published: a tagged, unsealed view of exactly the cell, with exactly LOAD | GLOBAL.
  pub prepare_bounds :
      (i : ℕ) (v : c.Cap)
      → prepare i ≡ some v
      → (c.tag_get v ≡ true)
        × (c.is_sealed v ≡ false)
        × (c.address_get v ≡ c.address_get (cell i))
        × (c.base_get v ≡ c.address_get (cell i))
        × (c.length_get v ≡ size)
        × (c.perms_get v ≡ permissions)
  unfolding prepare
  prepare_bounds i v h = ground arith

  same_cell :
      c.address_get (cell 0) ≢ c.address_get (cell 1)
      → (i j : ℕ) → i < 2
      → j < 2
      → c.address_get (cell i) ≡ c.address_get (cell j)
      → i ≡ j
  same_cell apart zero zero l l' e = refl
  same_cell apart zero (suc zero) l l' e = absurd (apart e)
  same_cell apart (suc zero) zero l l' e = absurd (apart (sym e))
  same_cell apart (suc zero) (suc zero) l l' e = refl
  same_cell apart (suc (suc i)) j l l' e = absurd (omega (arith, l))
  same_cell apart i (suc (suc j)) l l' e = absurd (omega (arith, l'))

  -- Where the two private cells have different addresses and the object's capability is tagged, the
  -- purecap build keeps the promises on which the gates rest, by the laws of the intrinsics.
  pub purecap-IsFaithful :
      IsCheri c
      → c.address_get (cell 0) ≢ c.address_get (cell 1)
      → c.tag_get object ≡ true
      → IsFaithful purecap_build
  purecap-IsFaithful laws apart tagged = record {
    same_sound = laws.equal_sound;
    same_refl = laws.equal_refl;
    view_not_null = λ i v e z. cc ((prepare_bounds i v e).0, laws.null_untagged, z);
    view_injective = λ i j v l l' e e'.
        same_cell apart i j l l' (sym ((prepare_bounds i v e).2) ∙ (prepare_bounds j v e').2);
    null_dead = laws.null_untagged;
    ref_live = tagged;
    cleared_dead = laws.clear_untagged;
  }
