-- ===== src/Locks/RoundTrip.antt =====
-- `_build_payload` and `_parse_lock_payload` together.
use safeatomic.Prelude.{
  ℕ, ◌≡◌, refl, inl, inr, ℤ, pos, Bool, true, false, Option, none, some, List, [], ◌∷◌, ◌++◌, Str,
  Bytes, codes, Option-cases, if◌then◌else◌,
}
use safeatomic.Prelude.Eq.{◌==◌, nat_eq, list_eq}
use safeatomic.Sys.World.{World}
use safeatomic.Sys.Exec.{pure, raise}
use safeatomic.Sys.Logic.Ends.{Ends}
use safeatomic.Host.{Host, object, aware}
use safeatomic.Locks.Payload.{
  document, build_payload, LockFields, get_member, parse_timestamp, fields, parse_lock_payload,
}

-- What the source relies on: text survives UTF-8, a document survives `json`, and a UTC time its ISO
-- form.
pub record Codecs (host : Host) (session_hash : Option Str) (timestamp : ℕ) : Type 0 where
  pub utf8 :
      (s : Str) (b : Bytes)
      → host.encode (codes "utf-8") s ≡ some b
      → host.decode (codes "utf-8") b ≡ some s
  pub json :
      host.loads (host.dumps (document host session_hash timestamp) ++ 10 ∷ [])
      ≡ some (object (document host session_hash timestamp))
  pub iso : host.fromisoformat (host.isoformat timestamp) ≡ some (aware timestamp)

module _ (host : Host) (session_hash : Option Str) (timestamp : ℕ) where
  abbrev pub Ours : LockFields
  Ours = record {
    pid = some (pos host.pid);
    hostname = some host.hostname;
    session_hash = session_hash;
    timestamp = some timestamp;
  }

fields-document :
    (host : Host) (session_hash : Option Str) (timestamp : ℕ)
    → host.fromisoformat (host.isoformat timestamp) ≡ some (aware timestamp)
    → fields host (document host session_hash timestamp) ≡ some (Ours host session_hash timestamp)
unfolding fields get_member parse_timestamp safeatomic.Prelude.Eq.list_beq
fields-document host none timestamp e = rw (parse_timestamp, e) refl
fields-document host (some h) timestamp e = rw (parse_timestamp, e) refl

-- Let the codecs of the host be inverse to each other. Then a payload that `build_payload` returns is
-- read back as the number and the host name of this process, the session hash and the time.
pub parse_lock_payload-build_payload :
    (host : Host) (session_hash : Option Str) (timestamp : ℕ) (w : World)
    → Codecs host session_hash timestamp
    → Ends
        (λ payload w'.
          (parse_lock_payload host payload ≡ some (Ours host session_hash timestamp)) × (w' ≡ w))
        (λ e w'.
          host.encode (codes "utf-8") (host.dumps (document host session_hash timestamp) ++ 10 ∷ [])
          ≡ none)
        (build_payload host session_hash timestamp w)
unfolding build_payload parse_lock_payload pure raise
parse_lock_payload-build_payload host session_hash timestamp w c =
    elim (Option-cases (
      host.encode (codes "utf-8") (host.dumps (document host session_hash timestamp) ++ 10 ∷ []))) [
        | inl e ↦ rw (e, build_payload) refl
        | inr (b, e) ↦
            rw (e, build_payload)
              (
                rw (c.utf8 _ b e, parse_lock_payload)
                    (rw c.json (fields-document host session_hash timestamp c.iso)),
                refl,
              )
      ]
