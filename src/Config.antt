-- ===== src/Config.antt =====
-- src/safeatomic/_config.py: scoped defaults for four options. A missing argument and an unset
-- `ContextVar`, both `_UNSET` in the source, are `none`.
pub mod Laws
use safeatomic.Prelude.{
  ◌+◌, ◌*◌, ℤ, pos, negsuc, Bool, true, false, Option, none, some, List, [], ◌∷◌, ◌++◌, reverse,
  Str, codes,
}
use safeatomic.Constants.{default_checksum_algo}
use safeatomic.Sys.Errors.{type_error}
use safeatomic.Sys.Exec.{Result, ok, raised}

-- A value that a caller may pass. `real` is a float in microseconds.
pub data Value : Type 0 where
  str : Str → Value
  int : ℤ → Value
  boolean : Bool → Value
  real : ℤ → Value
  none_value : Value

pub record Arguments : Type 0 where
  pub encoding : Option Value
  pub checksum_algo : Option Value
  pub retries : Option Value
  pub delay : Option Value

-- The four `ContextVar`s, `delay` in microseconds.
pub record Context : Type 0 where
  pub encoding : Option Str
  pub checksum_algo : Option Str
  pub retries : Option ℤ
  pub delay : Option ℤ

abbrev pub initial : Context
initial = record { encoding = none; checksum_algo = none; retries = none; delay = none }

abbrev pub to_int : Bool → ℤ
to_int true = pos 1
to_int false = pos 0

-- A number of seconds in microseconds.
abbrev pub seconds : ℤ → ℤ
seconds (pos n) = pos (1000000 * n)
seconds (negsuc n) = negsuc (1000000 * n + 999999)

-- `isinstance(x, str)`
abbrev pub as_str : Option Value → Result (Option Str)
as_str none = ok none
as_str (some (str s)) = ok (some s)
as_str (some _) = raised type_error

-- `isinstance(x, int)`: a `bool` is an `int`.
abbrev pub as_int : Option Value → Result (Option ℤ)
as_int none = ok none
as_int (some (int n)) = ok (some n)
as_int (some (boolean b)) = ok (some (to_int b))
as_int (some _) = raised type_error

-- `isinstance(x, (int, float))`
abbrev pub as_real : Option Value → Result (Option ℤ)
as_real none = ok none
as_real (some (int n)) = ok (some (seconds n))
as_real (some (boolean b)) = ok (some (seconds (to_int b)))
as_real (some (real x)) = ok (some x)
as_real (some _) = raised type_error

infixl 10 ◌then◌
abbrev ◌then◌ {ℓ κ} : {A : Type ℓ} {B : Type κ} → Result A → (A → Result B) → Result B
ok a then f = f a
raised e then f = raised e

-- The values with their types checked.
unfoldable pub validate : Arguments → Result Context
validate args = as_str args.encoding then λ e. as_str args.checksum_algo then λ a.
    as_int args.retries then λ r. as_real args.delay then λ d.
    ok (record { encoding = e; checksum_algo = a; retries = r; delay = d })

-- A callable that resets one variable.
abbrev pub Reset : Type 0
Reset = Context → Context

abbrev pub Entered : Type 0
Entered = Context × List Reset

-- Each sets its variable to a value that was supplied, and notes how to undo that.
abbrev set_encoding : Option Str → Entered → Entered
set_encoding none (c, resets) = (c, resets)
set_encoding (some v) (c, resets) =
    (record c { encoding = some v }, resets ++ (λ d. record d { encoding = c.encoding }) ∷ [])

abbrev set_checksum_algo : Option Str → Entered → Entered
set_checksum_algo none (c, resets) = (c, resets)
set_checksum_algo (some v) (c, resets) = (
  record c { checksum_algo = some v },
  resets ++ (λ d. record d { checksum_algo = c.checksum_algo }) ∷ [],
)

abbrev set_retries : Option ℤ → Entered → Entered
set_retries none (c, resets) = (c, resets)
set_retries (some v) (c, resets) =
    (record c { retries = some v }, resets ++ (λ d. record d { retries = c.retries }) ∷ [])

abbrev set_delay : Option ℤ → Entered → Entered
set_delay none (c, resets) = (c, resets)
set_delay (some v) (c, resets) =
    (record c { delay = some v }, resets ++ (λ d. record d { delay = c.delay }) ∷ [])

unfoldable pub enter : Context → Context → Entered
enter v c =
    set_delay v.delay
      (set_retries v.retries (set_checksum_algo v.checksum_algo (set_encoding v.encoding (c, []))))

unfoldable pub unwind : List Reset → Context → Context
unwind [] c = c
unwind (reset ∷ resets) c = unwind resets (reset c)

-- `with safeatomic_config(...): body`. The resets run in reverse order, also when the body raises.
unfoldable pub safeatomic_config {ℓ} :
    {A : Type ℓ} → Arguments → (Context → Result A × Context) → Context → Result A × Context
safeatomic_config args body c = elim (validate args) [
  | raised e ↦ (raised e, c)
  | ok v ↦
      let (c', resets) = enter v c in let (r, c'') = body c' in (r, unwind (reverse resets) c'')
]

abbrev pub either_or {ℓ} : {A : Type ℓ} → Option A → Option A → A → A
either_or (some explicit) var default = explicit
either_or none (some v) default = v
either_or none none default = default

pub record Resolved : Type 0 where
  pub encoding : Str
  pub checksum_algo : Str
  pub retries : ℤ
  pub delay : ℤ

-- Explicit argument, then context variable, then the built-in default. `explicit` holds the
-- keyword arguments.
unfoldable pub resolve_config : Context → Context → Resolved
resolve_config vars explicit = record {
  encoding = either_or explicit.encoding vars.encoding (codes "utf-8");
  checksum_algo = either_or explicit.checksum_algo vars.checksum_algo default_checksum_algo;
  retries = either_or explicit.retries vars.retries (pos 0);
  delay = either_or explicit.delay vars.delay (pos 100000);
}
