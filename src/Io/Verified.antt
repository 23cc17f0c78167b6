-- ===== src/Io/Verified.antt =====
-- What a read with `check_checksum=True` returns.
use safeatomic.Prelude.{
  ℕ, ◌≡◌, refl, sym, ap, ◌∙◌, ◌⊎◌, inl, inr, Bool, true, false, Option, none, some, Str, Bytes,
  Bool-cases, Option-cases, if◌then◌else◌,
}
use mathlib.Core.Option.{some-injective}
use safeatomic.Prelude.Eq.{◌==◌, ==_iff, nat_eq, list_eq}
use safeatomic.Constants.{best_effort}
use safeatomic.Sys.Errors.{is_os_error, checksum_mismatch_error, os_error, enoent}
use safeatomic.Sys.Fs.{FilePath, Fs, visible}
use safeatomic.Sys.World.{World}
use safeatomic.Sys.Exec.{Exec, pure, raise, gets, ◌>>=◌, ◌>>◌}
use safeatomic.Sys.Calls.{read_bytes, read_text, newlines, replace_bytes, now}
use safeatomic.Sys.Logic.Exists.{exists-Keeps}
use safeatomic.Sys.Logic.Ends.{
  Ends, Triple, Triple-bind, Triple-pure, Triple-try_except, Triple-of_Keeps,
}
use safeatomic.Sys.Files.Reads.{At, read_bytes-Read}
use safeatomic.Host.{Host}
use safeatomic.Paths.{checksum_path}
use safeatomic.Checksum.{
  ChecksumInfo, hashlib_new, compute_hash_data, info_of, read_sidecar, raw_fields,
  get_checksum_info,
}
use safeatomic.Checksum.Sidecar.{Fields, parse_sidecar}
use safeatomic.Io.Safety.{Required, check_safety}
use safeatomic.Io.Read.{
  read_verify_checksum, read_compare_hash, sidecar_hash_of, compare_if, read_core,
}

-- `content` hashes to `expected`.
abbrev pub HashesTo : Host → Str → Bytes → Str → Type 0
HashesTo host algo content expected =
    (hexdigest : Bytes → Str) × (host.digest algo ≡ some hexdigest) × (hexdigest content ≡ expected)

module _ (host : Host) (fs : Fs) where
  hash_data-At :
      (content : Bytes) (algo : Str)
      → Triple
          (At fs)
          (compute_hash_data host content algo)
          (λ h w. HashesTo host algo content h × At fs w)
          (λ e. At fs)
  unfolding compute_hash_data hashlib_new pure raise ◌>>=◌
  hash_data-At content algo = record {
    at = λ w h. elim (Option-cases (host.digest algo)) [
      | inl e ↦ rw (e, hashlib_new) h
      | inr (d, e) ↦ rw (e, hashlib_new) ((d, refl, refl), h)
    ];
  }

  compare-At :
      (target : FilePath) (content : Bytes) (expected algo : Str)
      → Triple
          (At fs)
          (read_compare_hash host target content expected algo)
          (λ u w. HashesTo host algo content expected × At fs w)
          (λ e. At fs)
  unfolding read_compare_hash pure raise
  compare-At target content expected algo =
      Triple-bind _ _ (hash_data-At content algo)
        (λ actual. record { at = λ w h. judge actual w h })
    where
      judge :
          (actual : Str) (w : World)
          → HashesTo host algo content actual × At fs w
          → Ends
              (λ u w. HashesTo host algo content expected × At fs w)
              (λ e. At fs)
              ((if actual == expected
                  then pure tt
                  else raise (checksum_mismatch_error target expected actual))
                w)
      judge actual w h = elim (Bool-cases (actual == expected)) [
        | inl e ↦ rw e ((h.0.0, h.0.1, h.0.2 ∙ (==_iff actual expected).0 e), h.1)
        | inr e ↦ rw e h.1
      ]

  module _ (target : FilePath) (side text : Bytes) (sidecar : Fields)
      (v : visible fs target ≡ some text) (vs : visible fs (checksum_path target) ≡ some side)
      (parsed : parse_sidecar (newlines false (replace_bytes side)) ≡ some sidecar) where
    abbrev Sidecar : Str
    Sidecar = newlines false (replace_bytes side)

    abbrev Maybe : Option Str → World → Type 0
    Maybe o w = ((o ≡ none) ⊎ (o ≡ some Sidecar)) × At fs w

    read_sidecar-At : Triple (At fs) (read_sidecar host (checksum_path target)) Maybe (λ e. At fs)
    unfolding read_sidecar read_text pure raise
    read_sidecar-At =
        Triple-try_except _ _
          (Triple-bind _ _
            (Triple-bind _ _ (read_bytes-Read fs (checksum_path target) side vs)
              (λ x. record { at = λ w h. (rw h.0 refl, h.1) }))
            (λ raw. record { at = λ w h. (inr (given raw w h), h.1) }))
          (λ e. record {
            at = λ w h. elim (Bool-cases (is_os_error e)) [
              | inl f ↦ rw f (inl refl, h)
              | inr f ↦ rw f h
            ];
          })
      where
        given : (raw : Str) (w : World) → (raw ≡ Sidecar) × At fs w → some raw ≡ some Sidecar
        given raw w h = rw h.0 refl

    hash_of_fields :
        (o : Option Fields) (time : ℕ) (i : ChecksumInfo)
        → o ≡ some sidecar
        → info_of host target o time ≡ some i
        → i.hash ≡ sidecar.digest
    unfolding info_of
    hash_of_fields none time i s e = absurd (cc s)
    hash_of_fields (some f) time i s e =
        ap (λ (j : ChecksumInfo). j.hash) (sym (some-injective _ _ e))
        ∙ ap (λ (g : Fields). g.digest) (some-injective _ _ s)

    abbrev Right : Option ChecksumInfo → World → Type 0
    Right info w = ((i : ChecksumInfo) → info ≡ some i → i.hash ≡ sidecar.digest) × At fs w

    info_of-Right :
        (raw : Option Str) (w : World)
        → Maybe raw w
        → Right (info_of host target (raw_fields raw) w.clock) w
    unfolding info_of
    info_of-Right raw w h = (right, h.1)
      where
        right :
            (i : ChecksumInfo)
            → info_of host target (raw_fields raw) w.clock ≡ some i
            → i.hash ≡ sidecar.digest
        right i e = elim h.0 [
          | inl n ↦ absurd (cc (rw n at e))
          | inr s ↦ hash_of_fields (raw_fields raw) w.clock i (rw s parsed) e
        ]

    timed :
        (raw : Option Str)
        → Triple
            (Maybe raw)
            (now >>= λ time. pure (info_of host target (raw_fields raw) time))
            Right
            (λ e. At fs)
    unfolding now gets pure ◌>>=◌
    timed raw = record { at = λ w h. info_of-Right raw w h }

    nothing : Triple (At fs) (pure none) Right (λ e. At fs)
    nothing = Triple-pure none (λ w h. ((λ i e. absurd (cc e)), h))

    get_checksum_info-Right : Triple (At fs) (get_checksum_info host target) Right (λ e. At fs)
    unfolding get_checksum_info
    get_checksum_info-Right =
        Triple-bind _ _ (Triple-of_Keeps _ (exists-Keeps (At fs) (λ w h. h) _))
          (λ found. either found (Triple-bind _ _ read_sidecar-At timed) nothing)
      where
        either :
            (b : Bool) {m n : Exec (Option ChecksumInfo)}
            → Triple (At fs) m Right (λ e. At fs)
            → Triple (At fs) n Right (λ e. At fs)
            → Triple (At fs) (if b then m else n) Right (λ e. At fs)
        either true t u = t
        either false t u = u

    read_verify-Right :
        Triple
          (At fs)
          (read_verify_checksum host target)
          (λ h w. (h ≡ sidecar.digest) × At fs w)
          (λ e. At fs)
    unfolding read_verify_checksum pure raise
    read_verify-Right = Triple-bind _ _ get_checksum_info-Right given
      where
        given :
            (info : Option ChecksumInfo)
            → Triple
                (Right info)
                (elim info [ none ↦ raise (os_error enoent) | some i ↦ pure i.hash ])
                (λ h w. (h ≡ sidecar.digest) × At fs w)
                (λ e. At fs)
        given none = record { at = λ w h. h.1 }
        given (some i) = record { at = λ w h. (h.0 i refl, h.1) }

    abbrev Expected : Option Str → World → Type 0
    Expected o w = (o ≡ some sidecar.digest) × At fs w

    sidecar_hash-Expected : Triple (At fs) (sidecar_hash_of host target true) Expected (λ e. At fs)
    unfolding sidecar_hash_of
    sidecar_hash-Expected =
        Triple-bind _ _ read_verify-Right (λ x. Triple-pure _ (λ w h. (rw h.0 refl, h.1)))

    abbrev Checked : Str → Bytes → World → Type 0
    Checked algo content w = (content ≡ text) × HashesTo host algo text sidecar.digest × At fs w

    checked :
        (algo : Str) (o : Option Str)
        → Triple
            (Expected o)
            (read_bytes target >>= λ content. compare_if host target content o algo >> pure content)
            (Checked algo)
            (λ e. At fs)
    unfolding compare_if
    checked algo none = record { at = λ w h. absurd (cc h.0) }
    checked algo (some expected) = record {
      at = λ w h.
          (Triple-bind _ _ (read_bytes-Read fs target text v) (λ content. record {
            at = λ w' k. rw k.0 (
                (Triple-bind _ _ (compare-At target text expected algo) (λ u.
                    Triple-pure text
                      (λ u k'. (refl, rw (some-injective _ _ h.0) at k'.0, k'.1)))).at
                  w' k.1);
          })).at
            w h.1;
    }

    read_core-Checked :
        (algo : Str) (required : Required)
        → Triple
            (At fs)
            (read_core host target true algo best_effort required)
            (Checked algo)
            (λ e. At fs)
    unfolding read_core check_safety
    read_core-Checked algo required =
        Triple-bind _ _ (Triple-pure tt (λ w h. h))
          (λ u. Triple-bind _ _ sidecar_hash-Expected (checked algo))

-- Let the target hold `text` and its checksum sidecar a text that is read as `sidecar`. Then for every
-- list of faults a read with `check_checksum` and no safety gate raises, or returns `text` and the
-- digest of `text` by the given algorithm is the one in the sidecar; the file system is as it was.
pub read_core_verified :
    (host : Host) (target : FilePath) (side text : Bytes) (sidecar : Fields) (algo : Str)
    (required : Required) (w : World)
    → visible w.fs target ≡ some text
    → visible w.fs (checksum_path target) ≡ some side
    → parse_sidecar (newlines false (replace_bytes side)) ≡ some sidecar
    → Ends
        (λ content w'. (content ≡ text) × HashesTo host algo text sidecar.digest × (w'.fs ≡ w.fs))
        (λ e w'. w'.fs ≡ w.fs)
        (read_core host target true algo best_effort required w)
read_core_verified host target side text sidecar algo required w v vs parsed =
    (read_core-Checked host w.fs target side text sidecar v vs parsed algo required).at w refl
