-- ===== src/Io/Returns.antt =====
-- Where no call fails, each step of a plain write returns.
pub mod Metadata
pub mod Place
pub mod Sync
pub mod Plain
use safeatomic.Prelude.{
  ℕ, zero, suc, ◌+◌, ◌<◌, ◌≡◌, ◌≢◌, refl, ◌∙◌, sym, ap, inl, inr, ltb, Bool, true, false, ◌&&◌,
  Option, none, some, List, [], ◌∷◌, Bytes, Str, length, drop, arith, Bool-cases, Option-cases,
  if◌then◌else◌,
}
use safeatomic.Prelude.Eq.{◌==◌, ==_refl, nat_eq, list_eq}
use safeatomic.Sys.Errors.{Exception, is_os_error}
use safeatomic.Sys.Fs.{Dir, FilePath, Fs, path_eq, update, update_self}
use safeatomic.Sys.World.{Fault, pass, Handle, file, folder, World}
use safeatomic.Sys.Exec.{
  Exec, Result, ok, raised, pure, raise, gets, modify, ◌>>=◌, ◌>>◌, suppress_os, try_except,
}
use safeatomic.Sys.Calls.{
  Reply, done, refused, call, settle, attempt, first_fault, later_faults, lookup_fd, erase_fd,
  new_fd, create_excl, open_excl, with_entry, write, write_to, granted, append_body, fsync,
  fsync_of, close, close_of, copystat, copystat_of, exists, present, is_some, stat_device, stat_dir,
  replace, replace_entry, rename, open_dir, sync_body, sync_dir, copy_attributes,
}
use safeatomic.Sys.Logic.Ends.{
  Ends, Ends-weaken, Triple, Triple-bind, Triple-pure, Triple-on_error, Triple-finally,
  Triple-try_except, Triple-weaken,
}
use safeatomic.Constants.{best_effort}
use safeatomic.Host.{Host}
use safeatomic.Sys.Logic.Returns.{Returns, after_call, answered_call}
use safeatomic.Io.Write.{
  write_loop, write_bytes_to_fd, write_copystat, differ, stat_both, write_device_check, fill_tmp,
  place_tmp, write_and_place,
}
use safeatomic.Io.Fsync.{fsync_dir, open_or_report, on_os_error}

module _ (target : FilePath) (name : Str) where
  abbrev pub tmp : FilePath
  tmp = record { dir = target.dir; name = name }

  -- No fault is to come, and the directory is there.
  pub record Calmly (w : World) : Type 0 where
    pub quiet : w.faults ≡ []
    pub present_dir : w.fs.is_dir target.dir ≡ true

  pub record Going (w : World) : Type 0 where
    pub calmly : Calmly w
    pub inode : ℕ
    pub entry : w.fs.names tmp ≡ some inode

  pub record Holding (fd : ℕ) (w : World) : Type 0 where
    pub going : Going w
    pub held : ℕ
    pub opened : lookup_fd fd w.fds ≡ some (file held)

  abbrev pub Absent : World → Type 0
  Absent w = Calmly w × (w.fs.names tmp ≡ none)

  pub open_excl-Holding : Returns Absent (open_excl tmp) Holding
  unfolding open_excl create_excl new_fd
  open_excl-Holding =
      Triple-bind _ _
        (answered_call Absent (λ i. Going) (create_excl tmp) (λ w h. h.0.quiet)
          (λ w h. (
            w.fs.next,
            with_entry tmp w.fs,
            rw (h.0.present_dir, h.1, create_excl) refl,
            record {
              calmly = record { quiet = refl; present_dir = h.0.present_dir };
              inode = w.fs.next;
              entry = update_self w.fs.names tmp (some w.fs.next);
            },
          )))
        (λ i. record {
          at = λ w h. record {
            going = record {
              calmly = record { quiet = h.calmly.quiet; present_dir = h.calmly.present_dir };
              inode = h.inode;
              entry = h.entry;
            };
            held = i;
            opened = rw (==_refl w.next_fd) refl;
          };
        })

  -- The file system stays as far as the names go.
  pub same_names :
      (fs : Fs) (w : World)
      → fs.is_dir ≡ w.fs.is_dir
      → fs.names ≡ w.fs.names
      → Going w
      → Going (after_call w fs)
  same_names fs w d n h = record {
    calmly = record { quiet = refl; present_dir = rw d h.calmly.present_dir };
    inode = h.inode;
    entry = rw n h.entry;
  }

  Wrote : ℕ → Bytes → ℕ → World → Type 0
  Wrote fd text n w = Holding fd w × (n ≡ length text)

  write-Wrote : (fd : ℕ) (text : Bytes) → Returns (Holding fd) (write fd text) (Wrote fd text)
  unfolding write Wrote
  write-Wrote fd text = record {
    at = λ w h.
        let part : Bytes = granted (first_fault w.faults) text in
        rw h.opened (
          (answered_call (λ u. u ≡ w) (Wrote fd text) _ (λ u e. rw e h.going.calmly.quiet)
              (λ u e. (
                length part,
                append_body h.held part u.fs,
                refl,
                rw e (
                  record {
                    going = same_names (append_body h.held part w.fs) w refl refl h.going;
                    held = h.held;
                    opened = h.opened;
                  },
                  whole w.faults h.going.calmly.quiet,
                ),
              ))).at
            w refl);
  }
    where
      whole :
          (faults : List Fault)
          → faults ≡ []
          → length (granted (first_fault faults) text) ≡ length text
      whole faults e = rw e refl

  stop :
      (fuel fd : ℕ) (text : Bytes)
      → Returns (Holding fd) (write_loop fuel fd text (length text)) (λ u. Holding fd)
  unfolding write_loop
  stop zero fd text = Triple-pure _ (λ w h. h)
  stop (suc fuel) fd text = rw (not_less (length text)) (Triple-pure _ (λ w h. h))
    where
      not_less : (n : ℕ) → ltb n n ≡ false
      not_less n = ground arith

  pub write_bytes-Holding :
      (fd : ℕ) (text : Bytes) → Returns (Holding fd) (write_bytes_to_fd fd text) (λ u. Holding fd)
  unfolding write_bytes_to_fd write_loop Wrote
  write_bytes-Holding fd [] = Triple-pure _ (λ w h. h)
  write_bytes-Holding fd (b ∷ text) = rw (more (length text)) (
      Triple-bind _ _ (write-Wrote fd (b ∷ text)) (λ n. record {
        at = λ w h.
            rw (h.1, zero_plus (suc (length text))) ((stop (length text) fd (b ∷ text)).at w h.0);
      }))
    where
      zero_plus : (n : ℕ) → 0 + n ≡ n
      zero_plus n = omega arith

      more : (n : ℕ) → ltb 0 (suc n) ≡ true
      more n = ground arith

  pub fsync-Holding : (fd : ℕ) → Returns (Holding fd) (fsync fd) (λ u. Holding fd)
  unfolding fsync
  fsync-Holding fd = record {
    at = λ w h. rw h.opened (
        (answered_call (λ u. u ≡ w) (λ x. Holding fd) _ (λ u e. rw e h.going.calmly.quiet)
            (λ u e. (
              tt,
              sync_body h.held u.fs,
              refl,
              rw e (record {
                going = same_names (sync_body h.held w.fs) w refl refl h.going;
                held = h.held;
                opened = h.opened;
              }),
            ))).at
          w refl);
  }

  pub close-Going : (fd : ℕ) → Returns (Holding fd) (close fd) (λ u. Going)
  unfolding close modify ◌>>=◌
  close-Going fd = record {
    at = λ w h.
        let w₁ : World = record w { fds = erase_fd fd w.fds } in
        rw h.opened (
          (answered_call (λ u. u ≡ w₁) (λ x. Going) _ (λ u e. rw e h.going.calmly.quiet)
              (λ u e. (
                tt,
                u.fs,
                refl,
                rw e (
                    same_names w₁.fs w₁ refl refl (record {
                      calmly = record {
                        quiet = h.going.calmly.quiet;
                        present_dir = h.going.calmly.present_dir;
                      };
                      inode = h.going.inode;
                      entry = h.going.entry;
                    })),
              ))).at
            w₁ refl);
  }
