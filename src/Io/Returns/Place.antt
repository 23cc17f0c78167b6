-- ===== src/Io/Returns/Place.antt =====
-- The device check and the replacement return where no call fails.
use safeatomic.Prelude.{ℕ, ◌≡◌, refl, Bool, Option, none, some, Bytes, Str}
use safeatomic.Prelude.Eq.{==_refl, nat_eq, list_eq}
use safeatomic.Sys.Fs.{FilePath}
use safeatomic.Sys.World.{World}
use safeatomic.Sys.Exec.{pure}
use safeatomic.Sys.Calls.{stat_device, stat_dir, replace, replace_entry, rename}
use safeatomic.Sys.Logic.Ends.{Triple-bind, Triple-pure, Triple-on_error, Triple-try_except}
use safeatomic.Host.{Host}
use safeatomic.Io.Write.{differ, stat_both, write_device_check, fill_tmp, place_tmp}
use safeatomic.Sys.Logic.Returns.{Returns, answered_call}
use safeatomic.Io.Returns.{
  tmp, Calmly, Going, Holding, same_names, write_bytes-Holding, fsync-Holding, close-Going,
}
use safeatomic.Io.Returns.Metadata.{write_copystat-Going}

module _ (target : FilePath) (name : Str) where
  abbrev pub Far : World → Type 0
  Far = Going target name

  stat_device-Same :
      Returns Far (stat_device (tmp target name)) (λ m w. Far w × (m ≡ w.fs.device target.dir))
  unfolding stat_device
  stat_device-Same =
      answered_call Far _ _ (λ w h. h.calmly.quiet)
        (λ w h. (
          w.fs.device target.dir,
          w.fs,
          rw h.entry refl,
          (same_names target name w.fs w refl refl h, refl),
        ))

  stat_dir-Same :
      (m : ℕ)
      → Returns
          (λ w. Far w × (m ≡ w.fs.device target.dir))
          (stat_dir target.dir)
          (λ n w. Far w × (m ≡ n))
  unfolding stat_dir
  stat_dir-Same m =
      answered_call _ _ _ (λ w h. h.0.calmly.quiet)
        (λ w h. (
          w.fs.device target.dir,
          w.fs,
          rw h.0.calmly.present_dir refl,
          (same_names target name w.fs w refl refl h.0, h.1),
        ))

  abbrev Alike : Option (ℕ × ℕ) → World → Type 0
  Alike none w = ⊥
  Alike (some (m, n)) w = Far w × (m ≡ n)

  differ-Far :
      (o : Option (ℕ × ℕ)) → Returns (Alike o) (differ (tmp target name) target o) (λ u. Far)
  unfolding pure
  differ-Far none = record { at = λ w h. absurd h }
  differ-Far (some (m, n)) = record { at = λ w h. rw (h.1, ==_refl n) h.0 }

  check-Far : Returns Far (write_device_check (tmp target name) target) (λ u. Far)
  unfolding write_device_check stat_both
  check-Far =
      Triple-bind _ _
        (Triple-try_except {R = λ e w. ⊥} _ _
          (Triple-bind _ _ stat_device-Same
            (λ m. Triple-bind _ _ (stat_dir-Same m) (λ n. Triple-pure _ (λ w h. h))))
          (λ e. record { at = λ w h. absurd h }))
        differ-Far

  pub replace-Calmly : Returns Far (replace (tmp target name) target) (λ u. Calmly target name)
  unfolding replace replace_entry
  replace-Calmly =
      answered_call Far _ _ (λ w h. h.calmly.quiet)
        (λ w h. (
          tt,
          rename (tmp target name) target h.inode w.fs,
          rw (h.entry, h.calmly.present_dir, ==_refl (w.fs.device target.dir), replace_entry) refl,
          record { quiet = refl; present_dir = h.calmly.present_dir },
        ))

  module _ (host : Host) (chunk_size : ℕ) where
    pub fill_tmp-Far :
        (fd : ℕ) (text : Bytes)
        → Returns
            (Holding target name fd)
            (fill_tmp host chunk_size (tmp target name) fd text)
            (λ u. Far)
    unfolding fill_tmp
    fill_tmp-Far fd text =
        Triple-on_error {R = λ e w. ⊥} _ _
          (Triple-bind _ _ (write_bytes-Holding target name fd text)
            (λ u. Triple-bind _ _ (fsync-Holding target name fd) (λ x. close-Going target name fd)))
          (λ e. record { at = λ w h. absurd h })

    pub place_tmp-Calmly :
        (preserve_metadata : Bool)
        → Returns Far
            (place_tmp host chunk_size target (tmp target name) preserve_metadata)
            (λ u. Calmly target name)
    unfolding place_tmp
    place_tmp-Calmly preserve_metadata =
        Triple-on_error {R = λ e w. ⊥} _ _
          (Triple-bind _ _ (write_copystat-Going target name preserve_metadata)
            (λ u. Triple-bind _ _ check-Far (λ x. replace-Calmly)))
          (λ e. record { at = λ w h. absurd h })
