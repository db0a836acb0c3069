-- ===== src/SpatialGuest/Ends.antt =====
-- linux/spatial/native-guest.c: what holds where an action goes on, and where it leaves.
use c_bpf.Base.{◌≡◌, refl, Bool, true, false, Option, none, some}
use c_bpf.SpatialGuest.{Kernel, World, Action, continue, ◌>>=◌, ◌>>◌, require, enter, Stage}

module _ {k : Kernel} where
  pub data Ends {A : Type 0} (Q : A → World k → Type 0) (R : World k → Type 0)
      : Option A × World k → Type 0 where
    goes : {a : A} {w : World k} → Q a w → Ends Q R (some a, w)
    leaves : {w : World k} → R w → Ends Q R (none, w)

  continue-Ends :
      {A B : Type 0} {Q : A → World k → Type 0} {S : B → World k → Type 0} {R : World k → Type 0}
      {x : Option A × World k} (f : A → Action k B)
      → Ends Q R x
      → ((a : A) (w : World k) → Q a w → Ends S R (f a w))
      → Ends S R (continue x f)
  unfolding continue
  continue-Ends f (goes {a} {w} q) h = h a w q
  continue-Ends f (leaves r) h = leaves r

  pub bind-Ends :
      {A B : Type 0} (Q : A → World k → Type 0) {S : B → World k → Type 0} {R : World k → Type 0}
      (m : Action k A) (f : A → Action k B) (w : World k)
      → Ends Q R (m w)
      → ((a : A) (w : World k) → Q a w → Ends S R (f a w))
      → Ends S R ((m >>= f) w)
  unfolding ◌>>=◌
  bind-Ends Q m f w e h = continue-Ends f e h

  -- A test, which changes nothing.
  pub require-Ends :
      {B : Type 0} {S : B → World k → Type 0} {R : World k → Type 0} (b : Bool) (n : Action k B)
      (w : World k)
      → R w
      → (b ≡ true → Ends S R (n w))
      → Ends S R ((require b >> n) w)
  unfolding require ◌>>=◌ continue
  require-Ends true n w r h = h refl
  require-Ends false n w r h = leaves r

  pub enter-Ends :
      {B : Type 0} {S : B → World k → Type 0} {R : World k → Type 0} (t : Stage) (n : Action k B)
      (w : World k)
      → Ends S R (n (record w { stage = t }))
      → Ends S R ((enter t >> n) w)
  unfolding ◌>>=◌ continue
  enter-Ends t n w h = h

  pub map-Ends :
      {A : Type 0} {Q S : A → World k → Type 0} {R : World k → Type 0} {x : Option A × World k}
      → ((a : A) (w : World k) → Q a w → S a w)
      → Ends Q R x
      → Ends S R x
  map-Ends h (goes {a} {w} q) = goes (h a w q)
  map-Ends h (leaves r) = leaves r
