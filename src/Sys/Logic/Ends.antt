-- ===== src/Sys/Logic/Ends.antt =====
-- What an action ends in: `Q` of the value where it returns, `R` of the error where it raises.
use safeatomic.Sys.Errors.{Exception}
use safeatomic.Sys.World.{World}
use safeatomic.Sys.Exec.{
  Result, ok, raised, Exec, pure, raise, try_except, on_error, finally, handle, proceed, conclude,
  ◌>>=◌, ◌>>◌,
}
use safeatomic.Sys.Logic.Keeps.{Keeps}

abbrev pub Ends :
    {A : Type 0} → (A → World → Type 0) → (Exception → World → Type 0) → Result A × World → Type 0
Ends Q R (ok a, w) = Q a w
Ends Q R (raised e, w) = R e w

-- From any world in `P` the action ends in `Q` or in `R`.
pub record Triple {A : Type 0} (P : World → Type 0) (m : Exec A) (Q : A → World → Type 0)
    (R : Exception → World → Type 0) : Type 0 where
  pub at : (w : World) → P w → Ends Q R (m w)

module _ {A : Type 0} {P : World → Type 0} where
  pub Triple-of_Keeps : (m : Exec A) → Keeps P m → Triple P m (λ a. P) (λ e. P)
  Triple-of_Keeps m k = record { at = λ w p. go (m w) (k.at w p) }
    where
      go : (x : Result A × World) → P x.1 → Ends (λ a. P) (λ e. P) x
      go (ok a, w') h = h
      go (raised e, w') h = h

  pub Keeps-of_Triple : (m : Exec A) → Triple P m (λ a. P) (λ e. P) → Keeps P m
  Keeps-of_Triple m t = record { at = λ w p. go (m w) (t.at w p) }
    where
      go : (x : Result A × World) → Ends (λ a. P) (λ e. P) x → P x.1
      go (ok a, w') h = h
      go (raised e, w') h = h

module _ {A : Type 0} (Q S : A → World → Type 0) (R T : Exception → World → Type 0) where
  pub Ends-weaken :
      (x : Result A × World)
      → Ends Q R x
      → ((a : A) (w : World) → Q a w → S a w)
      → ((e : Exception) (w : World) → R e w → T e w)
      → Ends S T x
  Ends-weaken (ok a, w) h f g = f a w h
  Ends-weaken (raised e, w) h f g = g e w h

module _ {A B : Type 0} {P : World → Type 0} {Q : A → World → Type 0} {S : B → World → Type 0}
    {R : Exception → World → Type 0} where
  pub Triple-bind :
      (m : Exec A) (f : A → Exec B)
      → Triple P m Q R
      → ((a : A) → Triple (Q a) (f a) S R)
      → Triple P (m >>= f) S R
  unfolding ◌>>=◌
  Triple-bind m f tm tf = record { at = λ w p. go (m w) (tm.at w p) }
    where
      go : (x : Result A × World) → Ends Q R x → Ends S R (proceed x.0 f x.1)
      go (ok a, w') h = (tf a).at w' h
      go (raised e, w') h = h

module _ {A : Type 0} {P : World → Type 0} {Q S : A → World → Type 0}
    {R T : Exception → World → Type 0} where
  pub Triple-weaken :
      (m : Exec A)
      → Triple P m Q R
      → ((a : A) (w : World) → Q a w → S a w)
      → ((e : Exception) (w : World) → R e w → T e w)
      → Triple P m S T
  Triple-weaken m t f g = record { at = λ w p. Ends-weaken Q S R T (m w) (t.at w p) f g }

  pub Triple-finally :
      (m : Exec A) (last : Exec (Unit {0}))
      → Triple P m Q R
      → ((a : A) → Triple (Q a) last (λ u. S a) T)
      → ((e : Exception) → Triple (R e) last (λ u. T e) T)
      → Triple P (finally m last) S T
  unfolding finally ◌>>=◌ pure raise
  Triple-finally m last tm ta te = record { at = λ w p. go (m w) (tm.at w p) }
    where
      close_ok :
          (a : A) (x : Result (Unit {0}) × World)
          → Ends (λ u. S a) T x
          → Ends S T (proceed x.0 (λ u. pure a) x.1)
      close_ok a (ok u, w') h = h
      close_ok a (raised e, w') h = h

      close_raised :
          (e : Exception) (x : Result (Unit {0}) × World)
          → Ends (λ u. T e) T x
          → Ends S T (proceed x.0 (λ u. raise e) x.1)
      close_raised e (ok u, w') h = h
      close_raised e (raised e', w') h = h

      go : (x : Result A × World) → Ends Q R x → Ends S T (conclude x.0 last x.1)
      go (ok a, w') q = close_ok a (last w') ((ta a).at w' q)
      go (raised e, w') r = close_raised e (last w') ((te e).at w' r)

module _ {A : Type 0} {P : World → Type 0} {Q : A → World → Type 0}
    {R T : Exception → World → Type 0} where
  pub Triple-try_except :
      (m : Exec A) (h : Exception → Exec A)
      → Triple P m Q R
      → ((e : Exception) → Triple (R e) (h e) Q T)
      → Triple P (try_except m h) Q T
  unfolding try_except
  Triple-try_except m h tm th = record { at = λ w p. go (m w) (tm.at w p) }
    where
      go : (x : Result A × World) → Ends Q R x → Ends Q T (handle x.0 h x.1)
      go (ok a, w') q = q
      go (raised e, w') r = (th e).at w' r

  pub Triple-on_error :
      (m : Exec A) (cleanup : Exec (Unit {0}))
      → Triple P m Q R
      → ((e : Exception) → Triple (R e) cleanup (λ u. T e) T)
      → Triple P (on_error m cleanup) Q T
  unfolding on_error try_except ◌>>=◌ raise
  Triple-on_error m cleanup tm te = record { at = λ w p. go (m w) (tm.at w p) }
    where
      close_raised :
          (e : Exception) (x : Result (Unit {0}) × World)
          → Ends (λ u. T e) T x
          → Ends Q T (proceed x.0 (λ u. raise e) x.1)
      close_raised e (ok u, w') h = h
      close_raised e (raised e', w') h = h

      go : (x : Result A × World) → Ends Q R x → Ends Q T (handle x.0 (λ e. cleanup >> raise e) x.1)
      go (ok a, w') q = q
      go (raised e, w') r = close_raised e (cleanup w') ((te e).at w' r)

module _ {A : Type 0} {P : World → Type 0} {Q : A → World → Type 0}
    {R : Exception → World → Type 0} where
  pub Triple-pure : (a : A) → ((w : World) → P w → Q a w) → Triple P (pure a) Q R
  unfolding pure
  Triple-pure a f = record { at = f }

  pub Triple-raise : (e : Exception) → ((w : World) → P w → R e w) → Triple P (raise e) Q R
  unfolding raise
  Triple-raise e f = record { at = f }

-- What holds of the end, and an invariant besides.
pub Ends-both :
    {A : Type 0} (P : World → Type 0) (Q : A → World → Type 0) (R : Exception → World → Type 0)
    (x : Result A × World)
    → P x.1
    → Ends Q R x
    → Ends (λ a w. P w × Q a w) (λ e w. P w × R e w) x
Ends-both P Q R (ok a, w) p h = (p, h)
Ends-both P Q R (raised e, w) p h = (p, h)

module _ {A B : Type 0} (Q : A → World → Type 0) (R : Exception → World → Type 0)
    (S : B → World → Type 0) (T : Exception → World → Type 0) where
  -- The rule for `bind` in one world.
  pub Ends-bind :
      (m : Exec A) (f : A → Exec B) (w : World)
      → Ends Q R (m w)
      → ((a : A) (u : World) → Q a u → Ends S T (f a u))
      → ((e : Exception) (u : World) → R e u → T e u)
      → Ends S T ((m >>= f) w)
  unfolding ◌>>=◌
  Ends-bind m f w h k l = go (m w) h
    where
      go : (x : Result A × World) → Ends Q R x → Ends S T (proceed x.0 f x.1)
      go (ok a, u) q = k a u q
      go (raised e, u) r = l e u r
