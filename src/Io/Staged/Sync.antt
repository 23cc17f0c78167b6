-- ===== src/Io/Staged/Sync.antt =====
-- The end of `fill_tmp`: the bytes reach the disk and the descriptor is closed.
use safeatomic.Prelude.{ℕ, ◌≡◌, ◌≢◌, ◌∙◌, Option, none, some, List, [], ◌∷◌, Bytes}
use safeatomic.Prelude.Eq.{==_refl, nat_eq}
use safeatomic.Sys.Fs.{FilePath}
use safeatomic.Sys.World.{Handle, file, World}
use safeatomic.Sys.Exec.{◌>>=◌, modify}
use safeatomic.Sys.Calls.{done, fsync, sync_body, close, erase_fd}
use safeatomic.Sys.Logic.Keeps.{Keeps, Keeps-bind, Keeps-suppress_os}
use safeatomic.Sys.Logic.Ends.{
  Triple, Triple-bind, Triple-on_error, Triple-of_Keeps, Ends-both, Ends-weaken,
}
use safeatomic.Sys.Files.Outcome.{Stands, call-Answered}
use safeatomic.Sys.Files.Frame.{Keeps-unlink}
use safeatomic.Sys.Files.Descriptors.{Keeps-fsync, Keeps-close}
use safeatomic.Io.Write.{clean_up, fill_tmp}
use safeatomic.Host.{Host}
use safeatomic.Io.Staged.{Before, before, Synced}
use safeatomic.Io.Staged.Fill.{Open, lookup-Open, write_bytes_to_fd-Open}

-- The handler leaves the target alone.
pub clean_up-Keeps :
    (target tmp : FilePath) (old new : Option Bytes) (fd : Option ℕ)
    → tmp ≢ target
    → Keeps (Before target old new) (clean_up fd (some tmp))
unfolding clean_up
clean_up-Keeps target tmp old new none ne =
    Keeps-suppress_os _ (Keeps-unlink (before old new) tmp ne)
clean_up-Keeps target tmp old new (some fd) ne =
    Keeps-bind _ _ (Keeps-suppress_os _ (Keeps-close (before old new) fd))
      (λ u. Keeps-suppress_os _ (Keeps-unlink (before old new) tmp ne))

module _ (target tmp : FilePath) (old new : Option Bytes) (i fd : ℕ) (rest : List (ℕ × Handle))
    (text : Bytes) where
  abbrev pub SyncedOpen : World → Type 0
  SyncedOpen = Synced target tmp old new i ((fd, file i) ∷ rest) text

  abbrev pub Closed : World → Type 0
  Closed = Synced target tmp old new i rest text

  sync_body-Synced :
      (w w' : World)
      → Open target tmp old new i fd rest text w
      → Before target old new w'
      → Stands w' (sync_body i w.fs) w
      → SyncedOpen w'
  sync_body-Synced w w' h k s = record {
    staged = record {
      holds = k;
      at =
          rw s.files (record {
            named = h.at.named;
            free = h.at.free;
            sole = h.at.sole;
            filled = h.at.filled;
          });
      opened = s.fds ∙ h.opened;
    };
    saved = rw (s.files, ==_refl i) h.at.filled;
  }

  -- The bytes reach the disk.
  pub fsync-Synced :
      Triple
        (Open target tmp old new i fd rest text)
        (fsync fd)
        (λ u. SyncedOpen)
        (λ e. Before target old new)
  fsync-Synced = record {
    at = λ w h.
        Ends-weaken (λ u w'. Before target old new w' × ((u ≡ tt) × Stands w' (sync_body i w.fs) w))
          (λ u. SyncedOpen) (λ e w'. Before target old new w' × Stands w' w.fs w)
          (λ e. Before target old new) (fsync fd w)
          (Ends-both (Before target old new) _ _ (fsync fd w)
            ((Keeps-fsync (before old new) fd).at w h.holds)
            (unfold fsync in
              rw (lookup-Open target tmp old new i fd rest text w h)
                (call-Answered (λ fs. done tt (sync_body i fs)) w)))
          (λ u w' k. sync_body-Synced w w' h k.0 k.1.1) (λ e w' k. k.0);
  }

  Closed-Synced :
      (w w' : World)
      → SyncedOpen w
      → Before target old new w'
      → w'.fs ≡ w.fs
      → w'.fds ≡ erase_fd fd w.fds
      → Closed w'
  Closed-Synced w w' h k e f = record {
    staged = record {
      holds = k;
      at = rw e h.staged.at;
      opened = f ∙ (rw (h.staged.opened, ==_refl fd));
    };
    saved = rw e h.saved;
  }

  pub close-Synced : Triple SyncedOpen (close fd) (λ u. Closed) (λ e. Before target old new)
  close-Synced = record {
    at = λ w h.
        let w₁ : World = record w { fds = erase_fd fd w.fds } in
        Ends-weaken (λ u w'. Before target old new w' × ((u ≡ tt) × Stands w' w₁.fs w₁))
          (λ u. Closed) (λ e w'. Before target old new w' × Stands w' w₁.fs w₁)
          (λ e. Before target old new) (close fd w)
          (Ends-both (Before target old new) _ _ (close fd w)
            ((Keeps-close (before old new) fd).at w h.staged.holds)
            (unfold close ◌>>=◌ modify in
              rw (lookup-Open target tmp old new i fd rest text w h.staged)
                (call-Answered (λ fs. done tt fs) w₁)))
          (λ u w' k. Closed-Synced w w' h k.0 k.1.1.files k.1.1.fds) (λ e w' k. k.0);
  }

  -- Steps 6 to 8 fill, sync and close the file, or end with the target as it was.
  pub fill_tmp-Closed :
      tmp ≢ target
      → (host : Host) (chunk_size : ℕ)
      → Triple
          (Open target tmp old new i fd rest [])
          (fill_tmp host chunk_size tmp fd text)
          (λ u. Closed)
          (λ e. Before target old new)
  unfolding fill_tmp
  fill_tmp-Closed ne host chunk_size =
      Triple-on_error _ _
        (Triple-bind _ _
          (record { at = λ w h. write_bytes_to_fd-Open target tmp old new i fd rest [] text w h })
          (λ u. Triple-bind _ _ fsync-Synced (λ u. close-Synced)))
        (λ e. Triple-of_Keeps _ (clean_up-Keeps target tmp old new (some fd) ne))
