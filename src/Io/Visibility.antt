-- ===== src/Io/Visibility.antt =====
-- `write_core` as a whole, by what the target shows.
use safeatomic.Prelude.{ℕ, ◌≡◌, ◌≢◌, inl, inr, Bool, Option, none, some, Bytes, ◌⊎◌}
use safeatomic.Sys.Errors.{Exception}
use safeatomic.Sys.Fs.{FilePath}
use safeatomic.Sys.World.{World}
use safeatomic.Sys.Exec.{Exec, when, finally, ◌>>◌}
use safeatomic.Sys.Logic.Keeps.{
  Keeps, Keeps-bind, Keeps-if, Keeps-pure, Keeps-raise, Keeps-suppress,
}
use safeatomic.Sys.Logic.Ends.{
  Triple, Triple-bind, Triple-on_error, Triple-of_Keeps, Triple-weaken, Triple-finally,
}
use safeatomic.Sys.Files.Holds.{Holds, Range}
use safeatomic.Constants.{strict}
use safeatomic.Host.{Host}
use safeatomic.Ordinary.{IsOrdinary, tmp-ne}
use safeatomic.Paths.{tmp_path_for}
use safeatomic.Paths.Laws.{lock_path-ne, checksum_path-ne}
use safeatomic.Locks.Frame.{Keeps-try_acquire_lock, Keeps-release_lock}
use safeatomic.Io.Safety.{Required, is_lock}
use safeatomic.Io.Fsync.{fsync_dir}
use safeatomic.Io.Write.{
  write_checksum_sidecar, Options, fill_tmp, place_tmp, write_and_place, acquire_lock,
  release_lock_suppress, write_core,
}
use safeatomic.Io.Frame.{Keeps-fsync_dir, Keeps-write_checksum_sidecar, Keeps-check_safety}
use safeatomic.Io.Staged.{Before, before, Fresh, open_excl-Fresh}
use safeatomic.Io.Staged.Sync.{clean_up-Keeps, fill_tmp-Closed}
use safeatomic.Io.Staged.Place.{After, after}
use safeatomic.Io.Durability.{Stage, Durable, durable, fsync_dir-Durable}
use safeatomic.Io.Staged.Replace.{place_tmp-After}

module _ {target : FilePath} (o : IsOrdinary target) (old new : Option Bytes) (host : Host) where
  -- The name of the temporary file is another than the target's.
  pub tmp_path_for-Named :
      Triple
        (Before target old new)
        (tmp_path_for host target)
        (λ tmp w. Before target old new w × (tmp ≢ target))
        (λ e. Before target old new)
  unfolding tmp_path_for
  tmp_path_for-Named = record {
    at = λ w h. (
      record { settled = h.settled; clear = h.clear; held = h.held; past = h.past; calm = h.calm },
      tmp-ne o host target.dir w.drawn,
    );
  }

module _ {target : FilePath} (o : IsOrdinary target) (old : Option Bytes) (host : Host)
    (chunk_size : ℕ) (text : Bytes) where
  fill_and_place :
      (tmp : FilePath) (fd : ℕ)
      → tmp ≢ target
      → (preserve_metadata : Bool)
      → Triple
          (Fresh target tmp old (some text) fd)
          (fill_tmp host chunk_size tmp fd text
            >> place_tmp host chunk_size target tmp preserve_metadata)
          (λ x. After target old (some text))
          (λ e. Before target old (some text))
  fill_and_place tmp fd ne preserve_metadata = record {
    at = λ w h.
        (Triple-bind _ _
            (fill_tmp-Closed target tmp old (some text) h.inode fd h.rest text ne host chunk_size)
            (λ x.
              place_tmp-After target tmp old h.inode h.rest text ne h.unheld host chunk_size
                preserve_metadata)).at
          w h.staged;
  }

  pub write_and_place-After :
      (preserve_metadata : Bool)
      → Triple
          (Before target old (some text))
          (write_and_place host chunk_size target text preserve_metadata)
          (λ x. After target old (some text))
          (λ e. Before target old (some text))
  unfolding write_and_place
  write_and_place-After preserve_metadata =
      Triple-bind _ _ (tmp_path_for-Named o old (some text) host) (λ tmp. record {
        at = λ w h.
            (Triple-bind _ _
                (Triple-on_error _ _ (open_excl-Fresh h.1 old (some text))
                  (λ e. Triple-of_Keeps _ (clean_up-Keeps target tmp old (some text) none h.1)))
                (λ fd. fill_and_place tmp fd h.1 preserve_metadata)).at
              w h.0;
      })

  module _ {c d a b v : Option Bytes} (r : Range c d a b v) where
    pub release-Keeps :
        (locked : Bool)
        → Keeps
            (Holds target c d a b v)
            (when locked (release_lock_suppress host chunk_size target))
    unfolding release_lock_suppress
    release-Keeps locked =
        Keeps-if locked _ _
          (Keeps-suppress _ (Keeps-release_lock r host target (lock_path-ne target)))
          (Keeps-pure tt)

    pub acquire-Keeps :
        (options : Options)
        → Keeps
            (Holds target c d a b v)
            (when (is_lock options.concurrency) (acquire_lock host chunk_size target options))
    unfolding acquire_lock
    acquire-Keeps options =
        Keeps-if (is_lock options.concurrency) _ _
          (Keeps-bind _ _
            (Keeps-try_acquire_lock r host target (lock_path-ne target) options.session
              options.retries options.delay options.safety)
            (λ acquired. Keeps-if acquired _ _ (Keeps-pure tt) (Keeps-raise _)))
          (Keeps-pure tt)

    pub finish-Keeps :
        (options : Options)
        → Keeps (Holds target c d a b v) (
            fsync_dir target.dir options.safety
            >> when options.write_checksum
                (write_checksum_sidecar host chunk_size target options.checksum_algo))
    finish-Keeps options = Keeps-bind _ _ (Keeps-fsync_dir r target.dir options.safety) (λ x.
        Keeps-if options.write_checksum _ _
          (Keeps-write_checksum_sidecar r host chunk_size target options.checksum_algo
            (checksum_path-ne target))
          (Keeps-pure tt))

  -- From the old text to the new one and back to the caller, the lock given back.
  unlocked-After :
      (options : Options)
      → Triple
          (Before target old (some text))
          (finally
            (write_and_place host chunk_size target text options.preserve_metadata)
            (when (is_lock options.concurrency) (release_lock_suppress host chunk_size target)))
          (λ x. After target old (some text))
          (λ e w. Before target old (some text) w ⊎ After target old (some text) w)
  unlocked-After options =
      Triple-finally _ _ (write_and_place-After options.preserve_metadata)
        (λ z.
          Triple-weaken _
            (Triple-of_Keeps _
              (release-Keeps (after old (some text)) (is_lock options.concurrency)))
            (λ z w h. h) (λ e w h. inr h))
        (λ e.
          Triple-weaken _
            (Triple-of_Keeps _
              (release-Keeps (before old (some text)) (is_lock options.concurrency)))
            (λ z w h. inl h) (λ e w h. inl h))

  -- The write up to the directory sync, followed by any `rest` that starts from the new text.
  write_core-Triple :
      (options : Options) (required : Required) (Q : World → Type 0)
      (R : Exception → World → Type 0)
      → ((e : Exception) (w : World) → Before target old (some text) w → R e w)
      → ((e : Exception) (w : World) → After target old (some text) w → R e w)
      → Triple
          (After target old (some text))
          (fsync_dir target.dir options.safety
            >> when options.write_checksum
                (write_checksum_sidecar host chunk_size target options.checksum_algo))
          (λ x. Q)
          R
      → Triple
          (Before target old (some text))
          (write_core host chunk_size target text options required)
          (λ x. Q)
          R
  unfolding write_core
  write_core-Triple options required Q R rb ra finish =
      Triple-bind _ _
        (early _
          (Keeps-check_safety o (before old (some text)) host target.dir required options.safety))
        (λ x. Triple-bind _ _ (early _ (acquire-Keeps (before old (some text)) options)) (λ y.
          Triple-bind _ _
            (Triple-weaken _ (unlocked-After options) (λ z w h. h)
              (λ e w h. elim h [ inl b ↦ rb e w b | inr a ↦ ra e w a ]))
            (λ z. finish)))
    where
      early :
          {A : Type 0} (m : Exec A)
          → Keeps (Before target old (some text)) m
          → Triple (Before target old (some text)) m (λ x. Before target old (some text)) R
      early m k = Triple-weaken m (Triple-of_Keeps m k) (λ x w h. h) rb

  -- Where the write raises, the old text stands, or the new one if the replacement was done.
  pub write_core-After :
      (options : Options) (required : Required)
      → Triple
          (Before target old (some text))
          (write_core host chunk_size target text options required)
          (λ x. After target old (some text))
          (λ e w. Before target old (some text) w ⊎ After target old (some text) w)
  write_core-After options required =
      write_core-Triple options required _ _ (λ e w. inl) (λ e w. inr)
        (Triple-weaken _ (Triple-of_Keeps _ (finish-Keeps (after old (some text)) options))
          (λ x w h. h) (λ e w. inr))

  strict_finish :
      (options : Options)
      → options.safety ≡ strict
      → Triple
          (After target old (some text))
          (fsync_dir target.dir options.safety
            >> when options.write_checksum
                (write_checksum_sidecar host chunk_size target options.checksum_algo))
          (λ x. Durable target old (some text))
          (λ e. Stage target old (some text))
  strict_finish options s = rw s (
      Triple-bind _ _
        (Triple-weaken _ (fsync_dir-Durable target old (some text)) (λ x w h. h) (λ e w. inr))
        (λ x.
          Triple-weaken _
            (Triple-of_Keeps _ (
              Keeps-if options.write_checksum _ _
                (Keeps-write_checksum_sidecar (durable old (some text)) host chunk_size target
                  options.checksum_algo (checksum_path-ne target))
                (Keeps-pure tt)))
            (λ x w h. h) (λ e w h. inr (inr h))))

  -- Under "strict" a write that returns has put the new text where no crash can undo it.
  pub write_core-Durable :
      (options : Options) (required : Required)
      → options.safety ≡ strict
      → Triple
          (Before target old (some text))
          (write_core host chunk_size target text options required)
          (λ x. Durable target old (some text))
          (λ e. Stage target old (some text))
  write_core-Durable options required s =
      write_core-Triple options required _ _ (λ e w. inl) (λ e w h. inr (inl h))
        (strict_finish options s)
