-- ===== src/Text.antt =====
-- The methods of `str` that the source calls, on lists of code points.
use safeatomic.Prelude.{
  ℕ, zero, suc, ◌+◌, ltb, ◌≡◌, refl, Bool, true, false, ◌&&◌, ◌||◌, Option, none, some, List, [],
  ◌∷◌, ◌++◌, Str, leb, arith, if◌then◌else◌,
}
use Prim.Native.Nat.{◌/◌, ◌%◌}
use safeatomic.Prelude.Eq.{◌==◌, ==_refl, nat_eq, list_eq}

-- `s.startswith(t)`
unfoldable pub starts_with : Str → Str → Bool
starts_with s [] = true
starts_with [] (c ∷ t) = false
starts_with (b ∷ s) (c ∷ t) = b == c && starts_with s t

-- `s.endswith(t)`
unfoldable pub ends_with : Str → Str → Bool
ends_with [] t = [] == t
ends_with (c ∷ s) t = c ∷ s == t || ends_with s t

pub starts_with-append : (t s : Str) → starts_with (t ++ s) t ≡ true
unfolding starts_with
starts_with-append [] s = refl
starts_with-append (c ∷ t) s = ground (arith, starts_with-append t s)

pub ends_with-append : (s t : Str) → ends_with (s ++ t) t ≡ true
unfolding ends_with
ends_with-append [] [] = ==_refl {K = Str} []
ends_with-append [] (c ∷ t) = ground (arith, ==_refl {K = Str} (c ∷ t))
ends_with-append (c ∷ s) t = ground (arith, ends_with-append s t)

-- The ASCII part of `str.isspace`, and what `splitlines` takes for the end of a line there.
unfoldable pub is_space : ℕ → Bool
is_space c = c == 32 || (leb 9 c && leb c 13) || (leb 28 c && leb c 31)

unfoldable pub is_line_end : ℕ → Bool
is_line_end c = (leb 10 c && leb c 13) || (leb 28 c && leb c 30)

-- `s.lower()` on ASCII
unfoldable pub lower_char : ℕ → ℕ
lower_char c = if leb 65 c && leb c 90 then c + 32 else c

unfoldable pub lower : Str → Str
unfolding lower_char
lower [] = []
lower (c ∷ s) = lower_char c ∷ lower s

-- `str(n)` for a number that is not negative. The fuel n + 1 is above the number of digits.
abbrev digits : ℕ → ℕ → Str → Str
digits zero n acc = acc
digits (suc f) n acc =
    let rest = digits f (n / 10) ((48 + n % 10) ∷ acc) in if ltb n 10 then (48 + n) ∷ acc else rest

unfoldable pub decimal : ℕ → Str
decimal n = digits (n + 1) n []

-- `s.rstrip("/")`
unfoldable pub rstrip_slash : Str → Str
rstrip_slash [] = []
rstrip_slash (c ∷ s) =
    let rest = rstrip_slash s in
    elim rest [ [] ↦ (if c == b'/' then [] else c ∷ []) | d ∷ t ↦ c ∷ d ∷ t ]

-- `s.splitlines()` on ASCII without carriage returns. `line` is the line so far.
unfoldable pub split_lines : Str → Str → List Str
split_lines [] [] = []
split_lines [] (b ∷ line) = (b ∷ line) ∷ []
split_lines (c ∷ s) line =
    let rest = split_lines s (if is_line_end c then [] else line ++ c ∷ []) in
    if is_line_end c then line ∷ rest else rest

unfoldable pub strip_left : Str → Str
strip_left [] = []
strip_left (c ∷ s) = if is_space c then strip_left s else c ∷ s

unfoldable pub strip_right : Str → Str
strip_right [] = []
strip_right (c ∷ s) = elim (strip_right s) [
  | [] ↦ (if is_space c then [] else c ∷ [])
  | d ∷ t ↦ c ∷ d ∷ t
]

-- `s.strip()`
unfoldable pub strip : Str → Str
unfolding strip_left strip_right
strip s = strip_right (strip_left s)

unfoldable pub until_space : Str → Str
until_space [] = []
until_space (c ∷ s) = let rest = until_space s in if is_space c then [] else c ∷ rest

abbrev pub nonempty : Str → Option Str
nonempty [] = none
nonempty (c ∷ s) = some (c ∷ s)

-- The first item of `s.split()`, if there is one.
unfoldable pub first_word : Str → Option Str
unfolding strip_left until_space
first_word s = nonempty (until_space (strip_left s))

-- `s.partition("=")`, if there is an equals sign.
unfoldable pub partition : Str → Option (Str × Str)
partition [] = none
partition (c ∷ s) =
    let rest = partition s in
    if c == b'='
    then some ([], s)
    else elim rest [ none ↦ none | some (key, value) ↦ some (c ∷ key, value) ]
