-- ===== src/Checksum/Verification.antt =====
-- What `verify_checksum` answers for a digest that the caller gives.
use safeatomic.Prelude.{ℕ, ◌<◌, ◌≡◌, ◌↔◌, ap, [], true, some, Str, Bytes}
use safeatomic.Prelude.Eq.{◌==◌, ==_iff, nat_eq, list_eq}
use safeatomic.Text.{lower}
use safeatomic.Sys.Fs.{FilePath, visible}
use safeatomic.Sys.World.{World}
use safeatomic.Sys.Exec.{Result, ok, raised, pure, ◌>>=◌}
use safeatomic.Sys.Logic.Ends.{Ends, Ends-bind}
use safeatomic.Host.{Host}
use safeatomic.Checksum.{
  hashlib_new, compute_hash_file, compute_hash_data, verify_against, verify_checksum,
}
use safeatomic.Checksum.Laws.{compute_hash_file-compute_hash_data}

value_of : Result Str → Str
value_of (ok s) = s
value_of (raised e) = []

digest_of :
    (host : Host) (text algo : Str) (d : Bytes → Str) (h : Str) (w : World)
    → host.digest algo ≡ some d
    → compute_hash_data host text algo w ≡ (ok h, w)
    → d text ≡ h
unfolding value_of compute_hash_data hashlib_new pure ◌>>=◌
digest_of host text algo d h w e k =
    ap (λ (x : Result Str × World). value_of x.0) (rw (hashlib_new, e) at k)

-- Let the algorithm be known, the chunk size be positive, and the file hold `text`. Then for every list
-- of faults `verify_checksum` with a given digest raises, or answers `True` exactly if the digest of
-- `text` and the given one agree up to the case of letters; the file system is as it was.
pub verify_checksum_iff :
    (host : Host) (chunk_size : ℕ) (p : FilePath) (text : Bytes) (expected algo : Str)
    (d : Bytes → Str) (w : World)
    → host.digest algo ≡ some d
    → 0 < chunk_size
    → visible w.fs p ≡ some text
    → Ends
        (λ b w'. ((b ≡ true) ↔ (lower (d text) ≡ lower expected)) × (w'.fs ≡ w.fs))
        (λ e w'. w'.fs ≡ w.fs)
        (verify_checksum host chunk_size p (some expected) algo w)
unfolding verify_checksum verify_against
verify_checksum_iff host chunk_size p text expected algo d w e pos v =
    Ends-bind (λ h w'. (compute_hash_data host text algo w ≡ (ok h, w)) × (w'.fs ≡ w.fs))
      (λ x w'. w'.fs ≡ w.fs)
      (λ b w'. ((b ≡ true) ↔ (lower (d text) ≡ lower expected)) × (w'.fs ≡ w.fs))
      (λ x w'. w'.fs ≡ w.fs) (compute_hash_file host chunk_size p algo)
      (λ actual. pure (lower actual == lower expected)) w
      (compute_hash_file-compute_hash_data host chunk_size p text algo w pos v)
      (λ h w' k. answer h w' k) (λ x w' k. k)
  where
    answer :
        (h : Str) (w' : World)
        → (compute_hash_data host text algo w ≡ (ok h, w)) × (w'.fs ≡ w.fs)
        → Ends
            (λ b u. ((b ≡ true) ↔ (lower (d text) ≡ lower expected)) × (u.fs ≡ w.fs))
            (λ x u. u.fs ≡ w.fs)
            (pure (lower h == lower expected) w')
    answer h w' k =
        unfold pure in
        (rw (digest_of host text algo d h w e k.0) (==_iff (lower h) (lower expected)), k.1)
