-- ===== src/Sys/Method/Sat.antt =====
-- What a method ends in: `Q` of the value, the object and the world where it returns, `R` of the
-- error where it raises.
use safeatomic.Sys.Errors.{Exception}
use safeatomic.Sys.World.{World}
use safeatomic.Sys.Exec.{Result, ok, raised, Exec}
use safeatomic.Sys.Logic.Ends.{Ends, Triple}
use safeatomic.Sys.Method.{
  Method, return, throw, lift, handle, catch, proceed, ◌>>=◌, assign, with_self,
}

abbrev pub EndsWith :
    {S A : Type 0}
    → (A → S → World → Type 0)
    → (Exception → S → World → Type 0)
    → Result A × S × World
    → Type 0
EndsWith Q R (ok a, s, w) = Q a s w
EndsWith Q R (raised e, s, w) = R e s w

pub record Sat {S A : Type 0} (P : S → World → Type 0) (m : Method S A) (Q : A → S → World → Type 0)
    (R : Exception → S → World → Type 0) : Type 0 where
  pub at : (s : S) (w : World) → P s w → EndsWith Q R (m s w)

module _ {S A : Type 0} {P : S → World → Type 0} {Q : A → S → World → Type 0}
    {R : Exception → S → World → Type 0} where
  pub Sat-return : (a : A) → ((s : S) (w : World) → P s w → Q a s w) → Sat P (return a) Q R
  unfolding return
  Sat-return a f = record { at = f }

  pub Sat-throw : (e : Exception) → ((s : S) (w : World) → P s w → R e s w) → Sat P (throw e) Q R
  unfolding throw
  Sat-throw e f = record { at = f }

  pub Sat-lift :
      (m : Exec A) → ((s : S) → Triple (P s) m (λ a. Q a s) (λ e. R e s)) → Sat P (lift m) Q R
  unfolding lift
  Sat-lift m t = record { at = λ s w p. go s (m w) ((t s).at w p) }
    where
      go :
          (s : S) (x : Result A × World)
          → Ends (λ a. Q a s) (λ e. R e s) x
          → EndsWith Q R (x.0, s, x.1)
      go s (ok a, w) h = h
      go s (raised e, w) h = h

  pub Sat-with_self :
      (f : S → Method S A)
      → ((s : S) (w : World) → P s w → EndsWith Q R (f s s w))
      → Sat P (with_self f) Q R
  unfolding with_self
  Sat-with_self f k = record { at = k }

module _ {S : Type 0} {P : S → World → Type 0} {Q : Unit {0} → S → World → Type 0}
    {R : Exception → S → World → Type 0} where
  pub Sat-assign : (f : S → S) → ((s : S) (w : World) → P s w → Q tt (f s) w) → Sat P (assign f) Q R
  unfolding assign
  Sat-assign f k = record { at = k }

module _ {S A B : Type 0} {P : S → World → Type 0} {Q : A → S → World → Type 0}
    {T : B → S → World → Type 0} {R : Exception → S → World → Type 0} where
  pub Sat-bind :
      (m : Method S A) (f : A → Method S B)
      → Sat P m Q R
      → ((a : A) → Sat (Q a) (f a) T R)
      → Sat P (m >>= f) T R
  unfolding ◌>>=◌
  Sat-bind m f km kf = record { at = λ s w p. go (m s w) (km.at s w p) }
    where
      go : (x : Result A × S × World) → EndsWith Q R x → EndsWith T R (proceed x.0 f x.1 x.2)
      go (ok a, s, w) h = (kf a).at s w h
      go (raised e, s, w) h = h

module _ {S A : Type 0} {P : S → World → Type 0} {Q : A → S → World → Type 0}
    {R T : Exception → S → World → Type 0} where
  pub Sat-catch :
      (m : Method S A) (h : Exception → Method S A)
      → Sat P m Q R
      → ((e : Exception) → Sat (R e) (h e) Q T)
      → Sat P (catch m h) Q T
  unfolding catch
  Sat-catch m h km kh = record { at = λ s w p. go (m s w) (km.at s w p) }
    where
      go : (x : Result A × S × World) → EndsWith Q R x → EndsWith Q T (handle x.0 h x.1 x.2)
      go (ok a, s, w) q = q
      go (raised e, s, w) r = (kh e).at s w r

module _ {S A : Type 0} {Q Q' : A → S → World → Type 0}
    {R R' : Exception → S → World → Type 0} where
  pub EndsWith-weaken :
      (x : Result A × S × World)
      → EndsWith Q R x
      → ((a : A) (s : S) (w : World) → Q a s w → Q' a s w)
      → ((e : Exception) (s : S) (w : World) → R e s w → R' e s w)
      → EndsWith Q' R' x
  EndsWith-weaken (ok a, s, w) h f g = f a s w h
  EndsWith-weaken (raised e, s, w) h f g = g e s w h

  pub Sat-weaken :
      {P : S → World → Type 0} (m : Method S A)
      → Sat P m Q R
      → ((a : A) (s : S) (w : World) → Q a s w → Q' a s w)
      → ((e : Exception) (s : S) (w : World) → R e s w → R' e s w)
      → Sat P m Q' R'
  Sat-weaken m k f g = record { at = λ s w p. EndsWith-weaken (m s w) (k.at s w p) f g }

-- The object's fields that a condition names decide which method runs.
pub Sat-split :
    {S A I : Type 0} {P : I → S → World → Type 0} {Q : A → S → World → Type 0}
    {R : Exception → S → World → Type 0} (m : Method S A)
    → ((i : I) → Sat (P i) m Q R)
    → Sat (λ s w. (i : I) × P i s w) m Q R
Sat-split m k = record { at = λ s w h. (k h.0).at s w h.1 }
