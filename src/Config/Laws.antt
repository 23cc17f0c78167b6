-- ===== src/Config/Laws.antt =====
-- Nested blocks of options.
use safeatomic.Prelude.{◌≡◌, Option, none, some, List, [], ◌∷◌, reverse, pos, codes, arith}
use safeatomic.Sys.Exec.{Result, ok}
use safeatomic.Config.{Arguments, Context, Resolved, enter, unwind, validate, safeatomic_config}

abbrev pub or_else {ℓ} : {A : Type ℓ} → Option A → Option A → Option A
or_else (some a) o = some a
or_else none o = o

-- What the variables hold inside a block that sets `v`, around which they hold `c`.
abbrev pub layered : Context → Context → Context
layered v c = record {
  encoding = or_else v.encoding c.encoding;
  checksum_algo = or_else v.checksum_algo c.checksum_algo;
  retries = or_else v.retries c.retries;
  delay = or_else v.delay c.delay;
}

pub enter-layered : (v c : Context) → (enter v c).0 ≡ layered v c
unfolding enter
enter-layered v c = ground arith

abbrev pick {ℓ κ} : {A : Type ℓ} {B : Type κ} → Option A → B → B → B
pick (some a) inside outside = inside
pick none inside outside = outside

-- What the resets leave of `d`: the variables that the block set are as they were in `c`.
abbrev pub restored : Context → Context → Context → Context
restored v c d = record {
  encoding = pick v.encoding c.encoding d.encoding;
  checksum_algo = pick v.checksum_algo c.checksum_algo d.checksum_algo;
  retries = pick v.retries c.retries d.retries;
  delay = pick v.delay c.delay d.delay;
}

pub unwind-enter : (v c d : Context) → unwind (reverse (enter v c).1) d ≡ restored v c d
unfolding enter unwind
unwind-enter v c d = ground arith

-- Let the arguments of a block be valid. After the block, whose body left the variables as `d`,
-- those that the block set are as they were before it, and the others are as the body left them;
-- the result is the body's, be it a value or an error.
pub safeatomic_config_restores {ℓ} :
    {A : Type ℓ} (args : Arguments) (body : Context → Result A × Context) (c : Context)
    {v : Context}
    → validate args ≡ ok v
    → safeatomic_config args body c ≡ ((body (layered v c)).0, restored v c (body (layered v c)).1)
unfolding safeatomic_config
safeatomic_config_restores args body c {v} valid =
    rw (valid, safeatomic_config) (rw (← enter-layered v c) (rw unwind-enter))

-- The first value that is given, or the default.
pub first_given {ℓ} : {A : Type ℓ} → List (Option A) → A → A
first_given [] default = default
first_given (none ∷ options) default = first_given options default
first_given (some a ∷ options) default = a

-- The options of a call, when its arguments are `explicit`, the inner of two blocks set `i` and the
-- outer `o`, and the variables held `c` around both.
abbrev pub by_precedence : Context → Context → Context → Context → Resolved
by_precedence explicit i o c = record {
  encoding =
      first_given (explicit.encoding ∷ i.encoding ∷ o.encoding ∷ c.encoding ∷ []) (codes "utf-8");
  checksum_algo =
      first_given
        (explicit.checksum_algo ∷ i.checksum_algo ∷ o.checksum_algo ∷ c.checksum_algo ∷ [])
        (codes "sha256");
  retries = first_given (explicit.retries ∷ i.retries ∷ o.retries ∷ c.retries ∷ []) (pos 0);
  delay = first_given (explicit.delay ∷ i.delay ∷ o.delay ∷ c.delay ∷ []) (pos 100000);
}
