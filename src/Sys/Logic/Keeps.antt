-- ===== src/Sys/Logic/Keeps.antt =====
-- Invariants of actions, with a rule for each way to build one.
use safeatomic.Prelude.{Bool, true, false, Option, none, some, if◌then◌else◌}
use safeatomic.Sys.Errors.{Exception, is_os_error}
use safeatomic.Sys.World.{World}
use safeatomic.Sys.Exec.{
  Result, ok, raised, Exec, pure, raise, gets, handle, try_except, on_error, finally, conclude,
  suppress, suppress_os, proceed, ◌>>=◌,
}

-- `m` keeps `P`, whether it returns or raises.
pub record Keeps {A : Type 0} (P : World → Type 0) (m : Exec A) : Type 0 where
  pub at : (w : World) → P w → P (m w).1

module _ {P : World → Type 0} {A : Type 0} where
  pub Keeps-if : (b : Bool) (m n : Exec A) → Keeps P m → Keeps P n → Keeps P (if b then m else n)
  Keeps-if true m n km kn = km
  Keeps-if false m n km kn = kn

  pub Keeps-gets : (f : World → A) → Keeps P (gets f)
  unfolding gets
  Keeps-gets f = record { at = λ w p. p }

  pub Keeps-raise : (e : Exception) → Keeps P (raise {A = A} e)
  unfolding raise
  Keeps-raise e = record { at = λ w p. p }

  pub Keeps-pure : (a : A) → Keeps P (pure a)
  unfolding pure
  Keeps-pure a = record { at = λ w p. p }

  handle-Keeps :
      (r : Result A) (h : Exception → Exec A)
      → ((e : Exception) → Keeps P (h e))
      → Keeps P (λ w. handle r h w)
  handle-Keeps (ok a) h kh = record { at = λ w p. p }
  handle-Keeps (raised e) h kh = kh e

  pub Keeps-try_except :
      (m : Exec A) (h : Exception → Exec A)
      → Keeps P m
      → ((e : Exception) → Keeps P (h e))
      → Keeps P (try_except m h)
  unfolding try_except
  Keeps-try_except m h km kh = record {
    at = λ w p. let (r, w') = m w in (handle-Keeps r h kh).at w' (km.at w p);
  }

module _ {P : World → Type 0} {A B : Type 0} where
  proceed-Keeps :
      (r : Result A) (f : A → Exec B) → ((a : A) → Keeps P (f a)) → Keeps P (λ w. proceed r f w)
  proceed-Keeps (ok a) f kf = kf a
  proceed-Keeps (raised e) f kf = record { at = λ w p. p }

  pub Keeps-bind :
      (m : Exec A) (f : A → Exec B) → Keeps P m → ((a : A) → Keeps P (f a)) → Keeps P (m >>= f)
  unfolding ◌>>=◌
  Keeps-bind m f km kf = record {
    at = λ w p. let (r, w') = m w in (proceed-Keeps r f kf).at w' (km.at w p);
  }

  pub Keeps-option :
      (o : Option A) (m : Exec B) (f : A → Exec B)
      → Keeps P m
      → ((a : A) → Keeps P (f a))
      → Keeps P (elim o [ none ↦ m | some a ↦ f a ])
  Keeps-option none m f km kf = km
  Keeps-option (some a) m f km kf = kf a

module _ {P : World → Type 0} {A : Type 0} where
  pub Keeps-on_error :
      (m : Exec A) (cleanup : Exec (Unit {0}))
      → Keeps P m
      → Keeps P cleanup
      → Keeps P (on_error m cleanup)
  unfolding on_error
  Keeps-on_error m cleanup km kc =
      Keeps-try_except m _ km (λ e. Keeps-bind cleanup _ kc (λ u. Keeps-raise e))

  conclude-Keeps :
      (r : Result A) (last : Exec (Unit {0})) → Keeps P last → Keeps P (λ w. conclude r last w)
  conclude-Keeps (ok a) last kl = Keeps-bind last _ kl (λ u. Keeps-pure a)
  conclude-Keeps (raised e) last kl = Keeps-bind last _ kl (λ u. Keeps-raise e)

  pub Keeps-finally :
      (m : Exec A) (last : Exec (Unit {0})) → Keeps P m → Keeps P last → Keeps P (finally m last)
  unfolding finally
  Keeps-finally m last km kl = record {
    at = λ w p. let (r, w') = m w in (conclude-Keeps r last kl).at w' (km.at w p);
  }

  pub Keeps-suppress : (m : Exec A) → Keeps P m → Keeps P (suppress m)
  unfolding suppress
  Keeps-suppress m km =
      Keeps-try_except _ _ (Keeps-bind m _ km (λ a. Keeps-pure tt)) (λ e. Keeps-pure tt)

  pub Keeps-suppress_os : (m : Exec A) → Keeps P m → Keeps P (suppress_os m)
  unfolding suppress_os
  Keeps-suppress_os m km =
      Keeps-try_except _ _ (Keeps-bind m _ km (λ a. Keeps-pure tt))
        (λ e. Keeps-if (is_os_error e) _ _ (Keeps-pure tt) (Keeps-raise e))

pub Keeps-both :
    {A : Type 0} {P Q : World → Type 0} (m : Exec A)
    → Keeps P m
    → Keeps Q m
    → Keeps (λ w. P w × Q w) m
Keeps-both m p q = record { at = λ w h. (p.at w h.0, q.at w h.1) }

pub ruleset keeps_rules = (
  Keeps-pure, Keeps-raise, Keeps-gets, Keeps-if, Keeps-try_except, Keeps-bind, Keeps-option,
  Keeps-on_error, Keeps-finally, Keeps-suppress, Keeps-suppress_os,
)
