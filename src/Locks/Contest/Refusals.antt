-- ===== src/Locks/Contest/Refusals.antt =====
-- Acquisition of a held lock, and release of a free or foreign one, where no call fails.
use safeatomic.Prelude.{
  ℕ, ◌≡◌, refl, pos, Bool, true, false, ◌&&◌, none, some, [], ◌∷◌, ◌++◌, Bytes, codes, ltb,
  if◌then◌else◌,
}
use safeatomic.Constants.{strict}
use safeatomic.Sys.Errors.{Exception, os_error, eexist, enoent}
use safeatomic.Sys.Fs.{FilePath}
use safeatomic.Sys.World.{World}
use safeatomic.Sys.Exec.{Exec, pure, gets, ◌>>◌}
use safeatomic.Sys.Calls.{create_excl, open_excl, now, read_bytes, sleep, unlink, remove_entry}
use safeatomic.Sys.Logic.Ends.{Triple, Triple-bind, Triple-pure, Triple-try_except, Triple-weaken}
use safeatomic.Sys.Logic.Returns.{Returns, refused_call}
use safeatomic.Host.{Host}
use safeatomic.Paths.{lock_path}
use safeatomic.Locks.Payload.{document, build_payload}
use safeatomic.Locks.Info.{absent, inspect_lock, unreadable}
use safeatomic.Locks.Acquire.{
  Opened, contended, opened, open_lock, fill_lock, acquire_loop, validate_safety, session_to_hash,
  try_acquire_lock, open_failed,
}
use safeatomic.Locks.Release.{
  held_by_us, remove_lock, release_lock, force_release_lock, removal_failed,
}
use safeatomic.Locks.Ownership.{Foreign, not_ours}
use safeatomic.Locks.Cycle.{inspect-Mine}
use safeatomic.Locks.Cycle.Take.{Mine, Vacant}

-- Each time gives this process a payload.
abbrev pub Encodes : Host → (ℕ → Bytes) → Type 0
Encodes host payload =
    (t : ℕ)
    → host.encode (codes "utf-8") (host.dumps (document host none t) ++ 10 ∷ []) ≡ some (payload t)

after_refusal :
    {A : Type 0} {Q : A → World → Type 0} {R : Exception → World → Type 0} (m : Exec A)
    → Triple (λ w. ⊥) m Q R
after_refusal m = record { at = λ w h. absurd h }

module _ (lf : FilePath) (text : Bytes) where
  abbrev Exists : Exception → World → Type 0
  Exists e w = Mine lf text w × (e ≡ os_error eexist)

  open-Exists : Triple (Mine lf text) (open_excl lf) (λ fd w. ⊥) Exists
  unfolding open_excl create_excl
  open-Exists =
      Triple-bind _ _
        (refused_call (Mine lf text) Exists (create_excl lf) (λ w h. h.quiet)
          (λ w h. (
            eexist,
            rw (h.folder, h.named, create_excl) refl,
            (
              record {
                quiet = refl;
                inode = h.inode;
                named = h.named;
                filled = h.filled;
                folder = h.folder;
              },
              refl,
            ),
          )))
        (λ i. after_refusal _)

  open_lock-Contended :
      Returns (Mine lf text) (open_lock lf) (λ r w. Mine lf text w × (r ≡ contended))
  unfolding open_lock pure
  open_lock-Contended =
      Triple-try_except _ _ (Triple-bind _ _ open-Exists (λ fd. after_refusal _))
        (λ e. record { at = λ w h. rw (h.1, open_failed) (h.0, refl) })

  module _ (host : Host) (payload : ℕ → Bytes) (encodes : Encodes host payload) (delay : ℕ) where
    payload-built : (t : ℕ) → Returns (Mine lf text) (build_payload host none t) (λ x. Mine lf text)
    unfolding build_payload pure
    payload-built t = record { at = λ w h. rw (encodes t, build_payload) h }

    abbrev Denied : Bool → World → Type 0
    Denied b w = (b ≡ false) × Mine lf text w

    one_attempt-Denied : Returns (Mine lf text) (acquire_loop host 1 lf none delay) Denied
    unfolding acquire_loop now gets
    one_attempt-Denied =
        Triple-bind {Q = λ t. Mine lf text} _ _ (record { at = λ w h. h })
          (λ t. Triple-bind _ _ (payload-built t) (λ x. Triple-bind _ _ open_lock-Contended (go x)))
      where
        go :
            (x : Bytes) (result : Opened)
            → Returns
                (λ w. Mine lf text w × (result ≡ contended))
                (elim result [
                  | contended ↦ (do
                    if (ltb 0 0 && ltb 0 delay) then sleep delay else pure tt
                    acquire_loop host 0 lf none delay)
                  | opened fd ↦ (do fill_lock lf fd x; pure true)
                ])
                Denied
        go x contended =
            Triple-bind {Q = λ u. Mine lf text} _ _ (Triple-pure tt (λ w h. h.0))
              (λ u. Triple-pure false (λ w h. (refl, h)))
        go x (opened fd) = record { at = λ w h. absurd (cc h.1) }

module _ (target : FilePath) (host : Host) where
  pub acquire-Denied :
      (text : Bytes) (payload : ℕ → Bytes) (delay : ℕ)
      → Encodes host payload
      → Returns
          (Mine (lock_path target) text)
          (try_acquire_lock host target none (pos 0) (pos delay) strict)
          (λ b w. (b ≡ false) × Mine (lock_path target) text w)
  unfolding try_acquire_lock session_to_hash validate_safety
  acquire-Denied text payload delay encodes =
      Triple-bind {Q = λ u. Mine (lock_path target) text} _ _ (Triple-pure tt (λ w h. h)) (λ u.
        Triple-bind {Q = λ h w. Mine (lock_path target) text w × (h ≡ none)} _ _
          (Triple-pure none (λ w h. (h, refl)))
          (λ h. record {
            at = λ w r.
                rw r.1 (
                  (one_attempt-Denied (lock_path target) text host payload encodes delay).at w r.0);
          }))

  module _ (P : World → Type 0) where
    -- A release of a lock that is not ours.
    not_held :
        Returns P (inspect_lock host target) (λ info w. (held_by_us host info ≡ false) × P w)
        → Returns P (release_lock host target) (λ b w. (b ≡ false) × P w)
    unfolding release_lock pure
    not_held h = Triple-bind _ _ h (λ info. record { at = λ w k. rw k.0 (refl, k.1) })

  pub release-Kept :
      (text : Bytes)
      → Foreign host text
      → Returns
          (Mine (lock_path target) text)
          (release_lock host target)
          (λ b w. (b ≡ false) × Mine (lock_path target) text w)
  release-Kept text foreign = not_held _ (
      Triple-weaken _ (inspect-Mine target host text)
        (λ info w h. (rw h.1 (not_ours host target text foreign), h.0)) (λ e w h. h))

  pub inspect-Absent :
      Returns
        (Vacant (lock_path target))
        (inspect_lock host target)
        (λ info w. (info ≡ absent target) × Vacant (lock_path target) w)
  unfolding inspect_lock read_bytes pure
  inspect-Absent =
      Triple-try_except {R = λ e w. Vacant (lock_path target) w × (e ≡ os_error enoent)} _ _
        (Triple-bind _ _
          (refused_call _ _ _ (λ w h. h.quiet)
            (λ w h. (
              enoent,
              rw h.unnamed refl,
              (record { quiet = refl; folder = h.folder; unnamed = h.unnamed }, refl),
            )))
          (λ x. after_refusal _))
        (λ e. record { at = λ w h. rw (h.1, unreadable) (refl, h.0) })

  pub release-Nothing :
      Returns
        (Vacant (lock_path target))
        (release_lock host target)
        (λ b w. (b ≡ false) × Vacant (lock_path target) w)
  release-Nothing =
      not_held _ (Triple-weaken _ inspect-Absent (λ info w h. (rw h.0 refl, h.1)) (λ e w h. h))

  pub force-Nothing :
      Returns
        (Vacant (lock_path target))
        (force_release_lock target)
        (λ b w. (b ≡ false) × Vacant (lock_path target) w)
  unfolding force_release_lock remove_lock unlink remove_entry pure
  force-Nothing =
      Triple-try_except {R = λ e w. Vacant (lock_path target) w × (e ≡ os_error enoent)} _ _
        (Triple-bind _ _
          (refused_call _ _ _ (λ w h. h.quiet)
            (λ w h. (
              enoent,
              rw (h.unnamed, remove_entry) refl,
              (record { quiet = refl; folder = h.folder; unnamed = h.unnamed }, refl),
            )))
          (λ x. after_refusal _))
        (λ e. record { at = λ w h. rw (h.1, removal_failed) (refl, h.0) })
