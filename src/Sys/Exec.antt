-- ===== src/Sys/Exec.antt =====
-- Code that changes the world and may raise. What was done before a raise stays done.
use safeatomic.Prelude.{◌+◌, Bool, if◌then◌else◌}
use safeatomic.Sys.Errors.{Exception, is_os_error}
use safeatomic.Sys.World.{World}

pub data Result {ℓ} (A : Type ℓ) : Type ℓ where
  ok : A → Result A
  raised : Exception → Result A

abbrev pub Exec {ℓ} : Type ℓ → Type ℓ
Exec A = World → Result A × World

module _ {ℓ} {A : Type ℓ} where
  unfoldable pub pure : A → Exec A
  pure a w = (ok a, w)

  unfoldable pub raise : Exception → Exec A
  raise e w = (raised e, w)

  -- What other code has answered or raised.
  abbrev pub of_result : Result A → Exec A
  of_result (ok a) w = (ok a, w)
  of_result (raised e) w = (raised e, w)

  unfoldable pub gets : (World → A) → Exec A
  gets f w = (ok (f w), w)

  abbrev pub handle : Result A → (Exception → Exec A) → Exec A
  handle (ok a) h w = (ok a, w)
  handle (raised e) h w = h e w

  -- `try: m except ... as exc: h exc`, where `h` raises again what the clauses do not name
  unfoldable pub try_except : Exec A → (Exception → Exec A) → Exec A
  try_except m h w = let (r, w') = m w in handle r h w'

abbrev pub proceed {ℓ κ} : {A : Type ℓ} {B : Type κ} → Result A → (A → Exec B) → Exec B
proceed (ok a) f w = f a w
proceed (raised e) f w = (raised e, w)

infixl 10 ◌>>=◌ ◌>>◌
unfoldable pub ◌>>=◌ {ℓ κ} : {A : Type ℓ} {B : Type κ} → Exec A → (A → Exec B) → Exec B
◌>>=◌ m f w = let (r, w') = m w in proceed r f w'

abbrev pub ◌>>◌ {ℓ} : {B : Type ℓ} → Exec (Unit {0}) → Exec B → Exec B
m >> n = m >>= λ _. n

module _ {ℓ} {A : Type ℓ} where
  -- `try: m except BaseException: cleanup; raise`
  unfoldable pub on_error : Exec A → Exec (Unit {0}) → Exec A
  on_error m cleanup = try_except m (λ e. cleanup >> raise e)

  abbrev pub conclude : Result A → Exec (Unit {0}) → Exec A
  conclude (ok a) last = last >> pure a
  conclude (raised e) last = last >> raise e

  -- `try: m finally: last`
  unfoldable pub finally : Exec A → Exec (Unit {0}) → Exec A
  finally m last w = let (r, w') = m w in conclude r last w'

  -- `with contextlib.suppress(Exception)`
  unfoldable pub suppress : Exec A → Exec (Unit {0})
  suppress m = try_except (m >>= λ _. pure tt) (λ e. pure tt)

  -- `with contextlib.suppress(OSError)`
  unfoldable pub suppress_os : Exec A → Exec (Unit {0})
  suppress_os m = try_except (m >>= λ _. pure tt) (λ e. if is_os_error e then pure tt else raise e)

abbrev pub when : Bool → Exec (Unit {0}) → Exec (Unit {0})
when b m = if b then m else pure tt

unfoldable pub modify : (World → World) → Exec (Unit {0})
modify f w = (ok tt, f w)

-- `warnings.warn(..., UnsupportedEnvironmentWarning)`
unfoldable pub warn_unsupported : Exec (Unit {0})
warn_unsupported = modify (λ w. record w { warned = w.warned + 1 })
