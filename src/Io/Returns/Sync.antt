-- ===== src/Io/Returns/Sync.antt =====
-- The directory sync returns where no call fails.
use safeatomic.Prelude.{ℕ, ◌≡◌, refl, Option, none, some, Str}
use safeatomic.Prelude.Eq.{==_refl, nat_eq, list_eq}
use safeatomic.Constants.{SafetyPolicy}
use safeatomic.Sys.Fs.{FilePath}
use safeatomic.Sys.World.{folder, World}
use safeatomic.Sys.Exec.{pure, finally, modify, suppress_os, try_except, ◌>>=◌}
use safeatomic.Sys.Calls.{lookup_fd, erase_fd, new_fd, open_dir, fsync, close, sync_dir}
use safeatomic.Sys.Logic.Ends.{Triple-bind, Triple-pure, Triple-finally, Triple-try_except}
use safeatomic.Io.Fsync.{fsync_dir, open_or_report, on_os_error}
use safeatomic.Sys.Logic.Returns.{Returns, answered_call}
use safeatomic.Io.Returns.{Calmly}

module _ (target : FilePath) (name : Str) where
  abbrev Opened : ℕ → World → Type 0
  Opened fd w = Calmly target name w × (lookup_fd fd w.fds ≡ some (folder target.dir))

  open_dir-Opened : Returns (Calmly target name) (open_dir target.dir) Opened
  unfolding open_dir new_fd
  open_dir-Opened =
      Triple-bind _ _
        (answered_call (Calmly target name) (λ u. Calmly target name) _ (λ w h. h.quiet)
          (λ w h. (
            tt,
            w.fs,
            rw h.present_dir refl,
            record { quiet = refl; present_dir = h.present_dir },
          )))
        (λ u. record {
          at = λ w h. (
            record { quiet = h.quiet; present_dir = h.present_dir },
            rw (==_refl w.next_fd) refl,
          );
        })

  abbrev Reported : Option ℕ → World → Type 0
  Reported none w = ⊥
  Reported (some fd) w = Opened fd w

  fsync-Opened : (fd : ℕ) → Returns (Opened fd) (fsync fd) (λ u. Opened fd)
  unfolding fsync
  fsync-Opened fd = record {
    at = λ w h. rw h.1 (
        (answered_call (λ u. u ≡ w) (λ x. Opened fd) _ (λ u e. rw e h.0.quiet)
            (λ u e. (
              tt,
              sync_dir target.dir u.fs,
              refl,
              rw e (record { quiet = refl; present_dir = h.0.present_dir }, h.1),
            ))).at
          w refl);
  }

  close-Calmly : (fd : ℕ) → Returns (Opened fd) (close fd) (λ u. Calmly target name)
  unfolding close modify ◌>>=◌
  close-Calmly fd = record {
    at = λ w h.
        let w₁ : World = record w { fds = erase_fd fd w.fds } in
        rw h.1 (
          (answered_call (λ u. u ≡ w₁) (λ x. Calmly target name) _ (λ u e. rw e h.0.quiet)
              (λ u e.
                (tt, u.fs, refl, rw e (record { quiet = refl; present_dir = h.0.present_dir })))).at
            w₁ refl);
  }

  pub fsync_dir-Calmly :
      (safety : SafetyPolicy)
      → Returns (Calmly target name) (fsync_dir target.dir safety) (λ u. Calmly target name)
  unfolding fsync_dir open_or_report suppress_os
  fsync_dir-Calmly safety =
      Triple-bind _ _
        (Triple-try_except {R = λ e w. ⊥} _ _
          (Triple-bind _ _ open_dir-Opened (λ fd. Triple-pure _ (λ w h. h)))
          (λ e. record { at = λ w h. absurd h }))
        after
    where
      after :
          (o : Option ℕ)
          → Returns
              (Reported o)
              (elim o [
                | none ↦ pure tt
                | some fd ↦
                    finally (try_except (fsync fd) (on_os_error safety)) (suppress_os (close fd))
              ])
              (λ u. Calmly target name)
      after none = record { at = λ w h. absurd h }
      after (some fd) =
          Triple-finally {R = λ e w. ⊥} _ _
            (Triple-try_except {R = λ e w. ⊥} _ _ (fsync-Opened fd)
              (λ e. record { at = λ w h. absurd h }))
            (λ u.
              Triple-try_except {R = λ e w. ⊥} _ _
                (Triple-bind _ _ (close-Calmly fd) (λ x. Triple-pure _ (λ w h. h)))
                (λ e. record { at = λ w h. absurd h }))
            (λ e. record { at = λ w h. absurd h })
