-- ===== src/Sys/Method/Shape.antt =====
-- Rules for methods of an object whose fields are all known.
use safeatomic.Prelude.{◌≡◌, ap, refl}
use safeatomic.Sys.Errors.{Exception}
use safeatomic.Sys.World.{World}
use safeatomic.Sys.Exec.{Exec}
use safeatomic.Sys.Logic.Ends.{Triple, Ends-weaken}
use safeatomic.Sys.Method.{Method, lift, assign, with_self}
use safeatomic.Sys.Method.Sat.{Sat, Sat-lift, Sat-assign, Sat-with_self}

-- The object is `c`, and the world is in `W`.
abbrev pub At : {S : Type 0} → S → (World → Type 0) → S → World → Type 0
At c W s w = (s ≡ c) × W w

module _ {S A : Type 0} (c : S) {P : World → Type 0} where
  pub At-lift :
      {Q : A → World → Type 0} {R : Exception → World → Type 0} (m : Exec A)
      → Triple P m Q R
      → Sat (At c P) (lift m) (λ a. At c (Q a)) (λ e. At c (R e))
  At-lift {Q} {R} m t = Sat-lift m (λ s. record {
    at = λ w h.
        Ends-weaken Q (λ a. At c (Q a) s) R (λ e. At c (R e) s) (m w) (t.at w h.1)
          (λ a u q. (h.0, q)) (λ e u r. (h.0, r));
  })

  pub At-with_self :
      {Q : A → S → World → Type 0} {R : Exception → S → World → Type 0} (f : S → Method S A)
      → Sat (At c P) (f c) Q R
      → Sat (At c P) (with_self f) Q R
  At-with_self f k = Sat-with_self f (λ s w h. rw h.0 (k.at c w (refl, h.1)))

module _ {S : Type 0} (c : S) {P : World → Type 0} where
  pub At-assign :
      {R : Exception → S → World → Type 0} (f : S → S) → Sat (At c P) (assign f) (λ u. At (f c) P) R
  At-assign f = Sat-assign f (λ s w h. (ap f h.0, h.1))
