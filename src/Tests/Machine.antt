-- ===== src/Tests/Machine.antt =====
-- A small host: its hash is a sum, its codecs are the identity, its JSON a list of tagged fields.
use safeatomic.Prelude.{
  ℕ, zero, suc, ◌+◌, ◌-◌, ◌*◌, pos, Option, none, some, List, [], ◌∷◌, ◌++◌, Str, Bytes, codes,
  length, take, drop, if◌then◌else◌,
}
use safeatomic.Prelude.Eq.{◌==◌, nat_eq, list_eq}
use safeatomic.Text.{decimal}
use safeatomic.Host.{Host, delivered, no_process, Json, null, number, text, Document, object, aware}

abbrev pub sum : Bytes → ℕ
sum [] = 0
sum (b ∷ rest) = b + sum rest

abbrev tagged : Json → Str
tagged null = 0 ∷ []
tagged (number (pos n)) = 1 ∷ n ∷ []
tagged (text s) = 2 ∷ length s ∷ s
tagged _ = 3 ∷ []

abbrev members : List (Str × Json) → Str
members [] = []
members ((key, value) ∷ rest) = length key ∷ (key ++ (tagged value ++ members rest))

abbrev untag : Str → Option (Json × Str)
untag (zero ∷ rest) = some (null, rest)
untag (suc zero ∷ n ∷ rest) = some (number (pos n), rest)
untag (suc (suc zero) ∷ n ∷ rest) = some (text (take n rest), drop n rest)
untag _ = none

abbrev attach : Str → Json → Option (List (Str × Json)) → Option (List (Str × Json))
attach key value none = none
attach key value (some rest) = some ((key, value) ∷ rest)

-- The members up to the line feed. The fuel is the number of members.
abbrev unmembers : ℕ → Str → Option (List (Str × Json))
unmembers zero s = some []
unmembers (suc fuel) [] = none
unmembers (suc fuel) (n ∷ s) = elim (untag (drop n s)) [
  | none ↦ none
  | some (value, rest) ↦ attach (take n s) value (unmembers fuel rest)
]

abbrev as_object : Option (List (Str × Json)) → Option Document
as_object none = none
as_object (some doc) = some (object doc)

abbrev number_of : ℕ → Str → ℕ
number_of n [] = n
number_of n (c ∷ s) = number_of (10 * n + (c - 48)) s

abbrev pub machine : Host
machine = record {
  pid = 7;
  hostname = codes "alpha";
  kill = λ n. if n == 7 then delivered else no_process;
  digest = λ algo. if algo == codes "sha256" then some (λ b. decimal (sum b)) else none;
  encode = λ encoding s. some s;
  decode = λ encoding b. some b;
  decode_lossy = λ b. b;
  dumps = members;
  loads = λ s. as_object (unmembers 5 s);
  isoformat = decimal;
  fromisoformat = λ s. some (aware (number_of 0 s));
  token_hex = decimal;
  sys_platform = codes "linux";
  proc_mounts = some ((codes "dev" ∷ codes "/" ∷ codes "ext4" ∷ []) ∷ []);
}
