-- ===== src/Locks/Contest/Recovery.antt =====
-- `release_stale_lock` with no limit of age, where no call fails.
use safeatomic.Prelude.{
  ℕ, ◌≡◌, refl, ◌⊎◌, inl, inr, Bool, true, false, none, some, Bytes, Bool-cases,
}
use safeatomic.Sys.Fs.{FilePath}
use safeatomic.Sys.World.{World}
use safeatomic.Sys.Exec.{pure, gets}
use safeatomic.Sys.Calls.{now}
use safeatomic.Sys.Logic.Ends.{Triple-bind, Triple-pure, Triple-weaken}
use safeatomic.Sys.Logic.Returns.{Returns}
use safeatomic.Host.{Host}
use safeatomic.Paths.{lock_path}
use safeatomic.Locks.Payload.{LockFields, parse_lock_payload}
use safeatomic.Locks.Info.{LockInfo, info_of_payload, inspect_lock}
use safeatomic.Locks.Release.{judge_stale, is_stale_lock, release_stale_lock, force_release_lock}
use safeatomic.Locks.Stale.{Died, Expired, judge_stale_iff}
use safeatomic.Locks.Cycle.{inspect-Mine, remove-Free}
use safeatomic.Locks.Cycle.Take.{Mine, Vacant}
use safeatomic.Locks.Contest.Refusals.{inspect-Absent}

module _ (target : FilePath) (host : Host) where
  -- What a look at the sidecar, and then at the clock, comes to.
  is_stale_lock-Judged :
      (P : World → Type 0) (info : LockInfo) (b : Bool)
      → Returns P (inspect_lock host target) (λ x w. (x ≡ info) × P w)
      → ((t : ℕ) → judge_stale host none info t ≡ b)
      → Returns P (is_stale_lock host target none) (λ c w. (c ≡ b) × P w)
  unfolding is_stale_lock now gets
  is_stale_lock-Judged P info b look judge = Triple-bind _ _ look (λ x.
      Triple-bind {Q = λ t w. (x ≡ info) × P w} _ _ (record { at = λ w h. h })
        (λ t. Triple-pure _ (λ w h. (rw h.0 (judge t), h.1))))

  spare :
      (P : World → Type 0) (info : LockInfo)
      → Returns P (inspect_lock host target) (λ x w. (x ≡ info) × P w)
      → ((t : ℕ) → judge_stale host none info t ≡ false)
      → Returns P (release_stale_lock host target none) (λ c w. (c ≡ false) × P w)
  unfolding release_stale_lock pure
  spare P info look judge =
      Triple-bind _ _ (is_stale_lock-Judged P info false look judge)
        (λ c. record { at = λ w h. rw h.0 (refl, h.1) })

  pub recover-Nothing :
      Returns
        (Vacant (lock_path target))
        (release_stale_lock host target none)
        (λ b w. (b ≡ false) × Vacant (lock_path target) w)
  unfolding judge_stale
  recover-Nothing = spare _ _ (inspect-Absent target host) (λ t. refl)

  module _ (text : Bytes) (doc : LockFields)
      (parsed : parse_lock_payload host text ≡ some doc) where
    look-Mine :
        Returns
          (Mine (lock_path target) text)
          (inspect_lock host target)
          (λ x w. (x ≡ info_of_payload host target text) × Mine (lock_path target) text w)
    look-Mine = Triple-weaken _ (inspect-Mine target host text) (λ x w h. (h.1, h.0)) (λ e w h. h)

    dead_judged :
        Died host (info_of_payload host target text)
        → (t : ℕ) → judge_stale host none (info_of_payload host target text) t ≡ true
    unfolding info_of_payload
    dead_judged d t =
        (judge_stale_iff host none (info_of_payload host target text) t).1
          (rw (parsed, info_of_payload) refl, rw (parsed, info_of_payload) refl, inl d)

    live_judged :
        ¬ Died host (info_of_payload host target text)
        → (t : ℕ) → judge_stale host none (info_of_payload host target text) t ≡ false
    live_judged n t =
        elim (Bool-cases (judge_stale host none (info_of_payload host target text) t)) [
          | inr e ↦ e
          | inl e ↦ absurd (alive ((judge_stale_iff host none _ t).0 e).2)
        ]
      where
        alive :
            Died host (info_of_payload host target text)
              ⊎ Expired none (info_of_payload host target text) t
            → ⊥
        alive (inl d) = n d
        alive (inr x) = absurd (cc x.2)

    pub recover-Spared :
        ¬ Died host (info_of_payload host target text)
        → Returns
            (Mine (lock_path target) text)
            (release_stale_lock host target none)
            (λ b w. (b ≡ false) × Mine (lock_path target) text w)
    recover-Spared n = spare _ _ (look-Mine) (live_judged n)

    pub recover-Died :
        Died host (info_of_payload host target text)
        → Returns
            (Mine (lock_path target) text)
            (release_stale_lock host target none)
            (λ b w. (b ≡ true) × Vacant (lock_path target) w)
    unfolding release_stale_lock force_release_lock
    recover-Died d =
        Triple-bind _ _ (is_stale_lock-Judged _ _ true look-Mine (dead_judged d))
          (λ c. record { at = λ w h. rw h.0 ((remove-Free target host text).at w h.1) })
