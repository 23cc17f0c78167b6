-- ===== src/Locks/Payload.antt =====
-- The JSON document in a lock sidecar: `_build_payload`, `_parse_timestamp`, `_parse_lock_payload`
-- and the checks of the field types that `inspect_lock` makes.
use safeatomic.Prelude.{
  ℕ, ◌*◌, ℤ, pos, Bool, true, false, ◌&&◌, Option, none, some, List, [], ◌∷◌, ◌++◌, Str, Bytes,
  codes, if◌then◌else◌,
}
use safeatomic.Prelude.Eq.{◌==◌, nat_eq, list_eq}
use safeatomic.Constants.{lock_payload_version}
use safeatomic.Sys.Errors.{unicode_error}
use safeatomic.Sys.Exec.{Exec, pure, raise}
use safeatomic.Host.{Host, Json, null, boolean, number, real, text, Document, object, Stamp, aware}

abbrev pub or_null : Option Str → Json
or_null none = null
or_null (some s) = text s

abbrev pub document : Host → Option Str → ℕ → List (Str × Json)
document host session_hash timestamp =
    (codes "version", number (pos lock_payload_version))
    ∷ (codes "pid", number (pos host.pid))
    ∷ (codes "hostname", text host.hostname)
    ∷ (codes "session_hash", or_null session_hash)
    ∷ (codes "timestamp", text (host.isoformat timestamp))
    ∷ []

-- The payload of this process.
unfoldable pub build_payload : Host → Option Str → ℕ → Exec Bytes
build_payload host session_hash timestamp =
    elim (host.encode (codes "utf-8")
      (host.dumps (document host session_hash timestamp) ++ 10 ∷ [])) [
        | none ↦ raise unicode_error
        | some payload ↦ pure payload
      ]

-- The fields of a document, each `none` where it has the wrong type.
pub record LockFields : Type 0 where
  pub pid : Option ℤ
  pub hostname : Option Str
  pub session_hash : Option Str
  pub timestamp : Option ℕ

abbrev pub Members : Type 0
Members = List (Str × Json)

-- `doc.get(key)`
unfoldable pub get_member : Str → Members → Option Json
get_member key [] = none
get_member key ((k, v) ∷ doc) = if k == key then some v else get_member key doc

abbrev has_member : Str → Members → Bool
has_member key doc = elim (get_member key doc) [ none ↦ false | some v ↦ true ]

-- `version != LOCK_PAYLOAD_VERSION`, where Python has `True == 1` and `1.0 == 1`.
abbrev is_version : Option Json → Bool
is_version (some (number (pos n))) = n == lock_payload_version
is_version (some (real (pos n))) = n == 1000000 * lock_payload_version
is_version (some (boolean b)) = b
is_version _ = false

-- An `int` that is no `bool`.
abbrev as_pid : Option Json → Option ℤ
as_pid (some (number n)) = some n
as_pid _ = none

abbrev as_text : Option Json → Option Str
as_text (some (text s)) = some s
as_text _ = none

abbrev utc : Option Stamp → Option ℕ
utc (some (aware t)) = some t
utc _ = none

-- A naive time is rejected.
unfoldable pub parse_timestamp : Host → Option Json → Option ℕ
parse_timestamp host (some (text s)) = utc (host.fromisoformat s)
parse_timestamp host _ = none

unfoldable pub fields : Host → Members → Option LockFields
unfolding get_member parse_timestamp
fields host doc =
    if is_version (get_member (codes "version") doc)
      && (has_member (codes "pid") doc
          && (has_member (codes "hostname") doc && has_member (codes "timestamp") doc))
    then some (record {
      pid = as_pid (get_member (codes "pid") doc);
      hostname = as_text (get_member (codes "hostname") doc);
      session_hash = as_text (get_member (codes "session_hash") doc);
      timestamp = parse_timestamp host (get_member (codes "timestamp") doc);
    })
    else none

abbrev pub of_document : Host → Option Document → Option LockFields
of_document host (some (object doc)) = fields host doc
of_document host _ = none

unfoldable pub parse_lock_payload : Host → Bytes → Option LockFields
parse_lock_payload host raw_bytes = elim (host.decode (codes "utf-8") raw_bytes) [
  | none ↦ none
  | some decoded ↦ of_document host (host.loads decoded)
]
