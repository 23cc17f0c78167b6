-- ===== src/Sys/Method.antt =====
-- Methods of an object: code that also reads and assigns the object's fields. What was assigned
-- before a raise stays assigned.
pub mod Sat
pub mod Shape
use safeatomic.Sys.Errors.{Exception}
use safeatomic.Sys.World.{World}
use safeatomic.Sys.Exec.{Result, ok, raised, Exec}

abbrev pub Method : Type 0 → Type 0 → Type 0
Method S A = S → World → Result A × S × World

module _ {S A : Type 0} where
  unfoldable pub return : A → Method S A
  return a s w = (ok a, s, w)

  unfoldable pub throw : Exception → Method S A
  throw e s w = (raised e, s, w)

  -- Code that leaves the object alone.
  unfoldable pub lift : Exec A → Method S A
  lift m s w = let (r, w') = m w in (r, s, w')

  abbrev pub handle : Result A → (Exception → Method S A) → Method S A
  handle (ok a) h s w = (ok a, s, w)
  handle (raised e) h s w = h e s w

  -- `try: m except BaseException as e: h e`, where `h` may raise again
  unfoldable pub catch : Method S A → (Exception → Method S A) → Method S A
  catch m h s w = let (r, s', w') = m s w in handle r h s' w'

module _ {S A B : Type 0} where
  abbrev pub proceed : Result A → (A → Method S B) → Method S B
  proceed (ok a) f s w = f a s w
  proceed (raised e) f s w = (raised e, s, w)

  infixl 10 ◌>>=◌
  unfoldable pub ◌>>=◌ : Method S A → (A → Method S B) → Method S B
  ◌>>=◌ m f s w = let (r, s', w') = m s w in proceed r f s' w'

infixl 10 ◌>>◌
abbrev pub ◌>>◌ : {S B : Type 0} → Method S (Unit {0}) → Method S B → Method S B
m >> n = m >>= λ _. n

module _ {S : Type 0} where
  unfoldable pub assign : (S → S) → Method S (Unit {0})
  assign f s w = (ok tt, f s, w)

  -- A method that begins by reading fields.
  unfoldable pub with_self : {A : Type 0} → (S → Method S A) → Method S A
  with_self f s w = f s s w
