-- ===== src/Checksum/Laws.antt =====
-- Digests of a file that is read by chunks.
use safeatomic.Prelude.{
  ℕ, zero, suc, ◌<◌, ◌≤◌, ◌≡◌, refl, ◌∙◌, ap, inl, inr, some, [], ◌∷◌, ◌++◌, Str, Bytes, length,
  take, drop, append-take-drop, arith, Option-cases,
}
use mathlib.Core.List.{append-nil, append_assoc}
use safeatomic.Sys.Fs.{FilePath, visible}
use safeatomic.Sys.World.{World}
use safeatomic.Sys.Exec.{ok, pure, raise, ◌>>=◌}
use safeatomic.Sys.Calls.{read_bytes}
use safeatomic.Sys.Logic.Ends.{Ends, Triple-bind, Triple-pure}
use safeatomic.Sys.Files.Reads.{read_bytes-Read}
use safeatomic.Host.{Host}
use safeatomic.Checksum.{feed, hashlib_new, compute_hash_file, compute_hash_data}

drop-le : (n m : ℕ) (xs : Bytes) → length xs ≤ suc m → 0 < n → length (drop n xs) ≤ m
drop-le (suc n) m [] h p = omega arith
drop-le (suc zero) m (x ∷ xs) h p = omega arith
drop-le (suc (suc n)) zero (x ∷ []) h p = omega arith
drop-le (suc (suc n)) zero (x ∷ y ∷ xs) h p = absurd (omega arith)
drop-le (suc (suc n)) (suc m) (x ∷ xs) h p =
    omega (arith, drop-le (suc n) m xs (omega arith) (omega arith))
drop-le zero m xs h p = absurd (omega arith)

-- With a positive chunk size and as many rounds as bytes, every byte is fed in, in order.
feed-all :
    (fuel size : ℕ) (rest fed : Bytes)
    → 0 < size
    → length rest ≤ fuel
    → feed fuel size rest fed ≡ fed ++ rest
unfolding feed
feed-all zero size [] fed p h = rw (append-nil fed) refl
feed-all zero size (x ∷ rest) fed p h = absurd (omega arith)
feed-all (suc fuel) size [] fed p h = rw (append-nil fed) refl
feed-all (suc fuel) size (x ∷ rest) fed p h =
    feed-all fuel size (drop size (x ∷ rest)) (fed ++ take size (x ∷ rest)) p
      (drop-le size fuel (x ∷ rest) h p)
    ∙ append_assoc fed (take size (x ∷ rest)) (drop size (x ∷ rest))
    ∙ ap (λ (t : Bytes). fed ++ t) (append-take-drop size (x ∷ rest))

-- Let the chunk size be positive and the file hold `text`. Then for every list of faults
-- `compute_hash_file` raises or returns what `compute_hash_data` returns for `text`, and the file
-- system is as it was.
pub compute_hash_file-compute_hash_data :
    (host : Host) (chunk_size : ℕ) (p : FilePath) (text : Bytes) (algo : Str) (w : World)
    → 0 < chunk_size
    → visible w.fs p ≡ some text
    → Ends
        (λ h w'. (compute_hash_data host text algo w ≡ (ok h, w)) × (w'.fs ≡ w.fs))
        (λ e w'. w'.fs ≡ w.fs)
        (compute_hash_file host chunk_size p algo w)
unfolding compute_hash_file compute_hash_data hashlib_new ◌>>=◌ pure raise
compute_hash_file-compute_hash_data host chunk_size p text algo w pos v =
    elim (Option-cases (host.digest algo)) [
      | inl e ↦ rw (e, hashlib_new) refl
      | inr (d, e) ↦
          rw (e, hashlib_new)
            ((Triple-bind (read_bytes p) _ (read_bytes-Read w.fs p text v) (λ x.
                Triple-pure _ (λ w' h. (
                  rw (h.0, feed-all (length text) chunk_size text [] pos (omega arith)) refl,
                  h.1,
                )))).at
              w refl)
    ]
