-- ===== src/CheriDemo/Passing.antt =====
-- src/cheri_demo.c: when the demonstration passes.
use c_bpf.Base.{
  ℕ, ◌+◌, ◌<◌, ◌≡◌, ◌≢◌, refl, ap, ◌∙◌, Bool, true, false, not, ◌&&◌, Option, none, some, ◌==◌, ltb,
  store, arith,
}
use c_bpf.Cheri.{IsCheri}
use c_bpf.CheriDemo.Stale.{Works, expect_stale_fault_iff}
use c_bpf.CheriDemo.{
  ◌>>=◌, require, cbpf_segv_captagerr, sigsegv, Loaded, value, faulted, Platform, Processes, State,
  initial, acquire, consume, load_object, load_value, resolve_read, unfaulted, expect_stale_fault,
  main, Cap,
}

-- What the documentation of the intrinsics says further of narrowing, which loads the machine refuses,
-- and where the objects lie.
pub record IsPlatform (p : Platform) : Type 0 where
  pub pointer_size : p.pointer_size ≡ 16
  pub bounds_address :
      (a : Cap p) (n : ℕ) → p.address_get (p.bounds_set_exact a n) ≡ p.address_get a
  -- The tag of a sealed capability is lost; that of another is kept, and it stays unsealed.
  pub clear_tag :
      (a : Cap p) (n : ℕ) → p.is_sealed a ≡ false → p.tag_get (p.perms_clear a n) ≡ p.tag_get a
  pub clear_unsealed :
      (a : Cap p) (n : ℕ) → p.is_sealed a ≡ false → p.is_sealed (p.perms_clear a n) ≡ false
  -- A load by an untagged capability is a tag fault. By one that is tagged and unsealed it is none, if
  -- the capability was narrowed from that of the object, or of a cell by `acquire`.
  pub untagged_fault :
      (a : Cap p) → p.tag_get a ≡ false → p.refuses a ≡ some (sigsegv, cbpf_segv_captagerr)
  pub object_loads :
      let a = p.bounds_set_exact p.live p.int_size in
      p.tag_get a ≡ true → p.is_sealed a ≡ false → p.refuses a ≡ none
  pub handle_loads :
      (i : ℕ)
      → i < 2
      → let a = p.perms_clear (p.bounds_set_exact (p.private i) p.cell_size) p.cleared_perms in
        p.tag_get a ≡ true → p.is_sealed a ≡ false → p.refuses a ≡ none
  pub perms_address : (a : Cap p) (n : ℕ) → p.address_get (p.perms_clear a n) ≡ p.address_get a
  -- The bounds of an `int` and of a cell are representable, and nothing is sealed.
  pub live_tag : p.tag_get (p.bounds_set_exact p.live p.int_size) ≡ true
  pub live_length : p.length_get (p.bounds_set_exact p.live p.int_size) ≡ p.int_size
  pub cell_tag : (i : ℕ) → i < 2 → p.tag_get (p.bounds_set_exact (p.private i) p.cell_size) ≡ true
  pub live_unsealed : p.is_sealed (p.bounds_set_exact p.live p.int_size) ≡ false
  pub cell_unsealed :
      (i : ℕ) → i < 2 → p.is_sealed (p.bounds_set_exact (p.private i) p.cell_size) ≡ false
  pub apart : p.address_get (p.private 0) ≢ p.address_get (p.private 1)
  pub somewhere : p.address_get p.live ≢ 0

module _ (p : Platform) (laws : IsCheri p.cheri) (fits : IsPlatform p) where
  abbrev handle : ℕ → Cap p
  handle i = p.perms_clear (p.bounds_set_exact (p.private i) p.cell_size) p.cleared_perms

  handle_tag : (i : ℕ) → i < 2 → p.tag_get (handle i) ≡ true
  handle_tag i h = fits.clear_tag _ _ (fits.cell_unsealed i h) ∙ fits.cell_tag i h

  handle_loads : (i : ℕ) → i < 2 → p.refuses (handle i) ≡ none
  handle_loads i h =
      fits.handle_loads i h (handle_tag i h) (fits.clear_unsealed _ _ (fits.cell_unsealed i h))

  handle_address : (i : ℕ) → p.address_get (handle i) ≡ p.address_get (p.private i)
  handle_address i = fits.perms_address _ _ ∙ fits.bounds_address _ _

  acquire_lem :
      (object : Cap p) (s : State p)
      → s.allocated < 2
      → acquire p object s
        ≡ some (
          handle s.allocated,
          record s {
            cells = store s.cells s.allocated object;
            allocated = s.allocated + 1;
            references = s.references + 1;
          },
        )
  unfolding acquire ◌>>=◌
  acquire_lem object s h =
      let e : ltb s.allocated 2 ≡ true = ground arith in rw (e, handle_tag s.allocated h) refl

  load_object_lem : (i : ℕ) (s : State p) → i < 2 → load_object p (handle i) s ≡ value (s.cells i)
  unfolding load_object
  load_object_lem i s h =
      rw (handle_loads i h, load_object) (ground (arith, handle_address i, fits.apart))

  load_value_lem :
      (o : Cap p) (s : State p)
      → p.refuses o ≡ none
      → p.address_get o ≡ p.address_get p.live
      → load_value p o s ≡ value s.live_value
  unfolding load_value
  load_value_lem o s t a = rw (t, load_value) (ground (arith, a))

  untagged_value :
      (o : Cap p) (s : State p)
      → p.tag_get o ≡ false
      → load_value p o s ≡ faulted sigsegv cbpf_segv_captagerr
  unfolding load_value
  untagged_value o s t = rw (fits.untagged_fault o t, load_value) refl

  stale_lem :
      (i : ℕ) (s : State p)
      → i < 2
      → p.tag_get (s.cells i) ≡ false
      → resolve_read p (handle i) s ≡ faulted sigsegv cbpf_segv_captagerr
  unfolding resolve_read
  stale_lem i s h t = rw (load_object_lem i s h) (untagged_value (s.cells i) s t)

  resolve_read_lem :
      (i : ℕ) (s : State p)
      → i < 2
      → p.refuses (s.cells i) ≡ none
      → p.address_get (s.cells i) ≡ p.address_get p.live
      → resolve_read p (handle i) s ≡ value s.live_value
  unfolding resolve_read
  resolve_read_lem i s h t a = rw (load_object_lem i s h) (load_value_lem (s.cells i) s t a)

  abbrev object : Cap p
  object = p.bounds_set_exact p.live p.int_size

  object_loads : p.refuses object ≡ none
  object_loads = fits.object_loads fits.live_tag fits.live_unsealed

  object_address : p.address_get object ≡ p.address_get p.live
  object_address = fits.bounds_address _ _

  -- Both cells bound; the first consumed; both.
  abbrev bound : State p
  bound = record {
    cells = store (store (λ _. p.null) 0 object) 1 object;
    allocated = 2;
    references = 3;
    effects = 0;
    live_value = 42;
  }

  abbrev one_left : State p
  one_left = record bound {
    cells = store bound.cells 0 (p.tag_clear object);
    references = 2;
    effects = 1;
  }

  abbrev none_left : State p
  none_left = record one_left {
    cells = store one_left.cells 1 (p.tag_clear object);
    references = 1;
    effects = 2;
  }

  consume_first : consume p 0 bound ≡ (true, one_left)
  unfolding consume
  consume_first = rw (fits.live_tag) refl

  consume_again : consume p 0 one_left ≡ (false, one_left)
  unfolding consume
  consume_again = rw (laws.clear_untagged object) refl

  consume_last : consume p 1 one_left ≡ (true, none_left)
  unfolding consume
  consume_last = rw (fits.live_tag) refl

  -- A step that goes on, in front of the rest.
  step {ℓ κ} :
      {A : Type ℓ} {B : Type κ} {m : Option A} {a : A} (f : A → Option B) {r : Option B}
      → m ≡ some a
      → f a ≡ r
      → (m >>= f) ≡ r
  unfolding ◌>>=◌
  step f e g = ap (λ o. o >>= f) e ∙ g

  passes : {b : Bool} → b ≡ true → require b ≡ some true
  passes e = ap require e

  loads {ℓ} : {A : Type ℓ} {l : Loaded A} {a : A} → l ≡ value a → unfaulted p l ≡ some a
  loads e = ap (unfaulted p) e

  stale_address : p.address_get (p.tag_clear object) ≡ p.address_get p.live
  stale_address = laws.clear_address object ∙ object_address

  stale_passes :
      (not (p.tag_get (p.tag_clear object))
        && p.address_get (p.tag_clear object) == p.address_get object
        && not (p.address_get (p.tag_clear object) == 0))
      ≡ true
  stale_passes =
      ground (arith, laws.clear_untagged object, stale_address, object_address, fits.somewhere)

  authority_passes :
      (p.pointer_size == 16 && p.tag_get object && p.length_get object == p.int_size) ≡ true
  authority_passes = ground (arith, fits.pointer_size, fits.live_tag, fits.live_length)

  identity_passes :
      (not (p.address_get (handle 0) == p.address_get (handle 1))
        && p.address_get object == p.address_get object)
      ≡ true
  identity_passes = ground (arith, handle_address 0, handle_address 1, fits.apart)

  stale_fault :
      (os : Processes) → Works os → expect_stale_fault p os (handle 0) one_left ≡ some true
  stale_fault os w =
      (expect_stale_fault_iff p os (handle 0) one_left).1
        (w, stale_lem 0 one_left (omega arith) (laws.clear_untagged object))

  main_lem : (os : Processes) → Works os → main p os ≡ some none_left
  unfolding main
  main_lem os w = step _ (passes authority_passes) (
      step _ (acquire_lem object (initial p) (omega arith)) (
        step _ (acquire_lem object first (omega arith)) (
          step _ (loads (load_object_lem 0 bound (omega arith))) (
            step _ (loads (load_object_lem 1 bound (omega arith))) (
              step _ (passes identity_passes) (
                step _ (loads (resolve_read_lem 0 bound (omega arith) object_loads object_address))
                  (step _
                    (loads (resolve_read_lem 1 bound (omega arith) object_loads object_address))
                    (step _ (passes refl) (
                      rw (consume_first, consume_again)
                        (step _ (passes refl) (
                          step _ (loads (load_object_lem 0 one_left (omega arith))) (
                            step _ (passes stale_passes) (
                              step _
                                (loads (
                                  resolve_read_lem 1 one_left (omega arith) object_loads
                                    object_address))
                                (step _
                                  (loads
                                    (load_value_lem object one_left object_loads object_address))
                                  (step _ (passes refl) (
                                    step _ (stale_fault os w) (
                                      step _ (stale_fault os w) (
                                        rw consume_last
                                          (step _ (passes refl) refl)))))))))))))))))))
    where
      first : State p
      first = record (initial p) {
        cells = store (initial p).cells 0 object;
        allocated = 1;
        references = 2;
      }

  -- Where the intrinsics narrow as documented, the machine refuses loads by untagged capabilities with
  -- a tag fault and grants those by the narrowed ones, the two cells lie apart, the object is not at address 0
  -- and every system call works, the demonstration passes: each `require` holds, and it ends with both
  -- cells allocated, one reference, two releases and no tagged object in a cell.
  pub main_passes :
      (os : Processes)
      → Works os
      → (s : State p) × (main p os ≡ some s)
        × (s.allocated ≡ 2)
        × (s.references ≡ 1)
        × (s.effects ≡ 2)
        × ((i : ℕ) → i < 2 → p.tag_get (s.cells i) ≡ false)
  main_passes os w = (
    none_left,
    main_lem os w,
    refl,
    refl,
    refl,
    λ i h. ground (arith, laws.clear_untagged object),
  )
