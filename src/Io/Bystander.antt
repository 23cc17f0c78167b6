-- ===== src/Io/Bystander.antt =====
-- Files that a write is not about.
use safeatomic.Prelude.{
  ℕ, zero, suc, ◌+◌, ltb, ◌≢◌, Bool, Option, none, some, Bytes, length, drop, All,
}
use safeatomic.Prelude.Eq.{◌==◌, nat_eq}
use safeatomic.Sys.Errors.{is_os_error}
use safeatomic.Sys.Fs.{FilePath}
use safeatomic.Sys.World.{World}
use safeatomic.Sys.Exec.{◌>>=◌}
use safeatomic.Sys.Logic.Keeps.{
  Keeps, Keeps-bind, Keeps-if, Keeps-pure, Keeps-raise, Keeps-suppress, Keeps-suppress_os,
  Keeps-on_error, Keeps-finally, Keeps-try_except,
}
use safeatomic.Sys.Files.Holds.{Good, Range, Holds}
use safeatomic.Sys.Files.Frame.{
  Keeps-exists, Keeps-copystat, Keeps-stat_device, Keeps-stat_dir, Keeps-unlink, Keeps-replace,
}
use safeatomic.Sys.Files.Descriptors.{Keeps-write, Keeps-fsync, Keeps-close}
use safeatomic.Sys.Files.Creation.{Keeps-open_excl}
use safeatomic.Host.{Host}
use safeatomic.Ordinary.{IsOrdinary, tmp-ne}
use safeatomic.Paths.{lock_path, checksum_path, tmp_path_for, tmp_name}
use safeatomic.Locks.Frame.{Keeps-try_acquire_lock, Keeps-release_lock}
use safeatomic.Locks.Exclusion.{standing}
use safeatomic.Io.Safety.{Required, is_lock}
use safeatomic.Io.Write.{
  Options, write_loop, write_bytes_to_fd, write_copystat, differ, stat_both, write_device_check,
  clean_up, fill_tmp, place_tmp, write_and_place, acquire_lock, release_lock_suppress, write_core,
}
use safeatomic.Io.Frame.{Keeps-fsync_dir, Keeps-write_checksum_sidecar, Keeps-check_safety}
use safeatomic.Io.Promises.{Ready, Shows, Before-of_Ready}

-- `other` is none of the three files of `target`.
pub record IsBystander (target other : FilePath) : Type 0 where
  pub ordinary : IsOrdinary other
  pub no_target : target ≢ other
  pub no_lock : lock_path target ≢ other
  pub no_checksum : checksum_path target ≢ other

module _ {other : FilePath} {c d a b v : Option Bytes} (r : Range c d a b v) where
  loop-Keeps :
      (fuel fd : ℕ) (text : Bytes) (written : ℕ)
      → Keeps (Holds other c d a b v) (write_loop fuel fd text written)
  unfolding write_loop
  loop-Keeps zero fd text written = Keeps-pure _
  loop-Keeps (suc fuel) fd text written =
      Keeps-if (ltb written (length text)) _ _
        (Keeps-bind _ _ (Keeps-write r fd (drop written text))
          (λ n. loop-Keeps fuel fd text (written + n)))
        (Keeps-pure _)

  module _ (tmp target : FilePath) (ne : tmp ≢ other) (nt : target ≢ other) (host : Host)
      (chunk_size : ℕ) where
    undo-Keeps : (fd : Option ℕ) → Keeps (Holds other c d a b v) (clean_up fd (some tmp))
    unfolding clean_up
    undo-Keeps none = Keeps-suppress_os _ (Keeps-unlink r tmp ne)
    undo-Keeps (some fd) =
        Keeps-bind _ _ (Keeps-suppress_os _ (Keeps-close r fd))
          (λ u. Keeps-suppress_os _ (Keeps-unlink r tmp ne))

    fill_tmp-Keeps :
        (fd : ℕ) (text : Bytes)
        → Keeps (Holds other c d a b v) (fill_tmp host chunk_size tmp fd text)
    unfolding fill_tmp write_bytes_to_fd
    fill_tmp-Keeps fd text =
        Keeps-on_error _ _
          (Keeps-bind _ _ (loop-Keeps (length text) fd text 0)
            (λ u. Keeps-bind _ _ (Keeps-fsync r fd) (λ x. Keeps-close r fd)))
          (undo-Keeps (some fd))

    differ-Keeps : (o : Option (ℕ × ℕ)) → Keeps (Holds other c d a b v) (differ tmp target o)
    differ-Keeps none = Keeps-pure _
    differ-Keeps (some (m, n)) = Keeps-if (m == n) _ _ (Keeps-pure _) (Keeps-raise _)

    check-Keeps : Keeps (Holds other c d a b v) (write_device_check tmp target)
    unfolding write_device_check stat_both
    check-Keeps =
        Keeps-bind _ _
          (Keeps-try_except _ _
            (Keeps-bind _ _ (Keeps-stat_device r tmp)
              (λ m. Keeps-bind _ _ (Keeps-stat_dir r target.dir) (λ n. Keeps-pure _)))
            (λ e. Keeps-if (is_os_error e) _ _ (Keeps-pure none) (Keeps-raise e)))
          differ-Keeps

    place_tmp-Keeps :
        (preserve_metadata : Bool)
        → Keeps (Holds other c d a b v) (place_tmp host chunk_size target tmp preserve_metadata)
    unfolding place_tmp write_copystat
    place_tmp-Keeps preserve_metadata =
        Keeps-on_error _ _
          (Keeps-bind _ _
            (Keeps-if preserve_metadata _ _
              (Keeps-bind _ _ (Keeps-exists r target) (λ found.
                Keeps-if _ _ _ (Keeps-suppress_os _ (Keeps-copystat r target tmp)) (Keeps-pure tt)))
              (Keeps-pure tt))
            (λ u. Keeps-bind _ _ check-Keeps (λ x. Keeps-replace r tmp target ne nt)))
          (undo-Keeps none)

  module _ (target : FilePath) (by : IsBystander target other) (host : Host) (chunk_size : ℕ) where
    write_and_place-Keeps :
        (text : Bytes) (preserve_metadata : Bool)
        → Keeps
            (Holds other c d a b v)
            (write_and_place host chunk_size target text preserve_metadata)
    unfolding write_and_place tmp_path_for ◌>>=◌
    write_and_place-Keeps text preserve_metadata = record {
      at = λ w h.
          let tmp : FilePath = record { dir = target.dir; name = tmp_name host w.drawn } in
          let ne = tmp-ne by.ordinary host target.dir w.drawn in
          (Keeps-bind _ _
              (Keeps-on_error _ _ (Keeps-open_excl r tmp ne)
                (undo-Keeps tmp target ne by.no_target host chunk_size none))
              (λ fd.
                Keeps-bind _ _ (fill_tmp-Keeps tmp target ne by.no_target host chunk_size fd text)
                  (λ u.
                    place_tmp-Keeps tmp target ne by.no_target host chunk_size
                      preserve_metadata))).at
            (record w { drawn = w.drawn + 1 })
            (record {
              settled = h.settled;
              clear = h.clear;
              held = h.held;
              past = h.past;
              calm = h.calm;
            });
    }

    write_core-Keeps :
        (text : Bytes) (options : Options) (required : Required)
        → Keeps (Holds other c d a b v) (write_core host chunk_size target text options required)
    unfolding write_core acquire_lock release_lock_suppress
    write_core-Keeps text options required =
        Keeps-bind _ _ (Keeps-check_safety by.ordinary r host target.dir required options.safety)
          (λ x.
            Keeps-bind _ _
              (Keeps-if (is_lock options.concurrency) _ _
                (Keeps-bind _ _
                  (Keeps-try_acquire_lock r host target by.no_lock options.session options.retries
                    options.delay options.safety)
                  (λ acquired. Keeps-if acquired _ _ (Keeps-pure tt) (Keeps-raise _)))
                (Keeps-pure tt))
              (λ y.
                Keeps-bind _ _
                  (Keeps-finally _ _ (write_and_place-Keeps text options.preserve_metadata) (
                    Keeps-if (is_lock options.concurrency) _ _
                      (Keeps-suppress _ (Keeps-release_lock r host target by.no_lock))
                      (Keeps-pure tt)))
                  (λ z. Keeps-bind _ _ (Keeps-fsync_dir r target.dir options.safety) (λ q.
                    Keeps-if options.write_checksum _ _
                      (Keeps-write_checksum_sidecar r host chunk_size target options.checksum_algo
                        by.no_checksum)
                      (Keeps-pure tt)))))

-- Let `other` be an ordinary file name that is neither the target nor its lock nor its checksum
-- sidecar, and at rest (`Ready`) with a text. Then for every list of faults and all options,
-- every file system that a call of `write_core` leaves shows that text in `other`, also after any
-- crash; and at the end a reader sees it, also after a crash with the entry on the disk.
pub write_core_bystander :
    {target other : FilePath} (by : IsBystander target other) (kept : Bytes) (host : Host)
    (chunk_size : ℕ) (text : Bytes) (options : Options) (required : Required) (w : World)
    → Ready other (some kept) w
    → All
        (Good other (some kept) (some kept))
        (write_core host chunk_size target text options required w).1.trace
      × Shows other (some kept) (write_core host chunk_size target text options required w).1
write_core_bystander {target} {other} by kept host chunk_size text options required w r =
    let h =
      (write_core-Keeps (standing kept) target by host chunk_size text options required).at w
        (Before-of_Ready r) in
    (h.past, (h.settled.seen, h.settled.late))
