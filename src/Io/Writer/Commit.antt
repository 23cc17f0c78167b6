-- ===== src/Io/Writer/Commit.antt =====
-- `write`, `flush` and `commit` of a writer with an open file.
use safeatomic.Prelude.{
  ℕ, ◌≡◌, ◌≢◌, refl, inl, inr, ap, Bool, true, false, Option, some, List, ◌++◌, Bytes,
  if◌then◌else◌,
}
use safeatomic.Sys.Fs.{FilePath}
use safeatomic.Sys.World.{Handle, World}
use safeatomic.Sys.Exec.{Exec}
use safeatomic.Sys.Logic.Ends.{Triple, Triple-weaken, Triple-of_Keeps}
use safeatomic.Sys.Method.{catch, ◌>>◌, throw, lift, return}
use safeatomic.Sys.Method.Sat.{
  Sat, Sat-assign, Sat-bind, Sat-catch, Sat-throw, Sat-return, Sat-weaken,
}
use safeatomic.Sys.Method.Shape.{At, At-lift, At-assign, At-with_self}
use safeatomic.Sys.Files.{Unheld}
use safeatomic.Host.{Host}
use safeatomic.Ordinary.{IsOrdinary}
use safeatomic.Paths.Laws.{checksum_path-ne}
use safeatomic.Io.Write.{Options, write_checksum_sidecar}
use safeatomic.Io.Writer.{
  AtomicWriter, write, flush, set_fd, set_tmp, place, release, finish, commit,
}
use safeatomic.Io.Staged.{Before}
use safeatomic.Io.Staged.Fill.{Open, write_bytes_to_fd-Open}
use safeatomic.Io.Staged.Sync.{fsync-Synced, close-Synced}
use safeatomic.Io.Staged.Place.{After, after, write_copystat-Closed}
use safeatomic.Io.Staged.Replace.{replace-After}
use safeatomic.Io.Frame.{Keeps-fsync_dir, Keeps-write_checksum_sidecar}
use safeatomic.Io.Writer.Phases.{
  opened, shut, empty, Unplaced, Placed, Unplaced-of_At, lift-Placed, discard-Unplaced,
}
use safeatomic.Io.Writer.Abort.{Ended, release-Unplaced, release-Placed}

module _ (target tmp : FilePath) (old new : Option Bytes) (i fd : ℕ) (rest : List (ℕ × Handle))
    (ne : tmp ≢ target) where
  abbrev pub Live : Bytes → AtomicWriter → World → Type 0
  Live text = At (opened tmp fd) (Open target tmp old new i fd rest text)

  -- A call that leaves `Before` behind where it raises.
  lift-Live :
      {A : Type 0} {P : World → Type 0} {Q : A → World → Type 0} (c : AtomicWriter)
      (tmp_ne : c.tmp ≡ some tmp) (m : Exec A)
      → c.committed ≡ false
      → Triple P m Q (λ e. Before target old new)
      → Sat (At c P) (lift m) (λ a. At c (Q a)) (λ e. Unplaced target old new)
  lift-Live c tmp_ne m u t =
      Sat-weaken _ (At-lift c m t) (λ x s w h. h)
        (λ e. Unplaced-of_At target old new c (rw tmp_ne ne) u)

  -- What is written goes behind what the file holds.
  pub write-Live :
      (sofar text : Bytes)
      → Sat (Live sofar) (write text) (λ n. Live (sofar ++ text)) (λ e. Unplaced target old new)
  unfolding write
  write-Live sofar text = At-with_self (opened tmp fd) _ (
      Sat-bind _ _
        (lift-Live (opened tmp fd) refl _ refl (record {
          at = λ w h. write_bytes_to_fd-Open target tmp old new i fd rest sofar text w h;
        }))
        (λ u. Sat-return _ (λ s w h. h)))

  pub flush-Live :
      (sofar : Bytes) → Sat (Live sofar) flush (λ u. Live sofar) (λ e. Unplaced target old new)
  unfolding flush
  flush-Live sofar = At-with_self (opened tmp fd) _ (
      lift-Live (opened tmp fd) refl _ refl (
        Triple-weaken _ (fsync-Synced target tmp old new i fd rest sofar) (λ u w h. h.staged)
          (λ e w h. h)))

module _ (target tmp : FilePath) (old : Option Bytes) (i fd : ℕ) (rest : List (ℕ × Handle))
    (ne : tmp ≢ target) (unheld : Unheld i rest) (text : Bytes) (host : Host) (chunk_size : ℕ)
    (options : Options) where
  -- The body of the `try` in `commit` shows the text, or changes nothing.
  place-Placed :
      Sat
        (Live target tmp old (some text) i fd rest ne text)
        (place host chunk_size target options tmp fd)
        (λ u. At (empty false false) (After target old (some text)))
        (λ e. Unplaced target old (some text))
  unfolding place set_fd set_tmp
  place-Placed =
      Sat-bind _ _
        (lift-Live target tmp old (some text) i fd rest ne (opened tmp fd) refl _ refl
          (fsync-Synced target tmp old (some text) i fd rest text))
        (λ u.
          Sat-bind _ _
            (lift-Live target tmp old (some text) i fd rest ne (opened tmp fd) refl _ refl
              (close-Synced target tmp old (some text) i fd rest text))
            (λ u. Sat-bind _ _ (At-assign (opened tmp fd) _) (λ u.
              Sat-bind _ _
                (lift-Live target tmp old (some text) i fd rest ne (shut tmp) refl _ refl (
                  Triple-weaken _
                    (Triple-of_Keeps _
                      (write_copystat-Closed target tmp old i rest text options.preserve_metadata))
                    (λ x w h. h) (λ e w h. h.staged.holds)))
                (λ u.
                  Sat-bind _ _
                    (lift-Live target tmp old (some text) i fd rest ne (shut tmp) refl _ refl
                      (replace-After target tmp old i rest text ne unheld))
                    (λ u. At-assign (shut tmp) _)))))

module _ {target : FilePath} (o : IsOrdinary target) (old new : Option Bytes) (host : Host)
    (chunk_size : ℕ) (options : Options) where
  -- What `commit` does once the target is replaced.
  finish-Placed :
      Sat
        (At (empty false false) (After target old new))
        (finish host chunk_size target options)
        (λ u. Placed target old new)
        (λ e. Placed target old new)
  unfolding finish
  finish-Placed =
      Sat-bind _ _
        (Sat-assign {Q = λ u. Placed target old new} _ (λ s w h. record {
          no_tmp = ap (λ (s : AtomicWriter). s.tmp) h.0;
          no_fd = ap (λ (s : AtomicWriter). s.fd) h.0;
          committed = refl;
          holds = h.1;
        }))
        (λ u.
          Sat-bind _ _
            (lift-Placed target old new _
              (Keeps-fsync_dir (after old new) target.dir options.safety))
            (λ u.
              Sat-bind _ _ (sidecar-Placed options.write_checksum)
                (λ u. (release-Placed o old new host chunk_size options))))
    where
      sidecar-Placed :
          (b : Bool)
          → Sat
              (Placed target old new)
              (if b
                then catch
                    (lift (write_checksum_sidecar host chunk_size target options.checksum_algo))
                    (λ e. release host chunk_size target options >> throw e)
                else return tt)
              (λ u. Placed target old new)
              (λ e. Placed target old new)
      sidecar-Placed true =
          Sat-catch _ _
            (lift-Placed target old new _ (
              Keeps-write_checksum_sidecar (after old new) host chunk_size target
                options.checksum_algo (checksum_path-ne target)))
            (λ e.
              Sat-bind _ _ (release-Placed o old new host chunk_size options)
                (λ u. Sat-throw e (λ s w h. h)))
      sidecar-Placed false = Sat-return tt (λ s w h. h)

-- A commit that returns shows the text. One that raises leaves the old text and nothing to do, or
-- has replaced the target.
pub commit-Live :
    {target tmp : FilePath} (o : IsOrdinary target) (old : Option Bytes) (i fd : ℕ)
    (rest : List (ℕ × Handle)) (ne : tmp ≢ target) (unheld : Unheld i rest) (text : Bytes)
    (host : Host) (chunk_size : ℕ) (options : Options)
    → Sat
        (Live target tmp old (some text) i fd rest ne text)
        (commit host chunk_size target options)
        (λ u. Placed target old (some text))
        (λ e. Ended o old (some text) host chunk_size options)
unfolding commit
commit-Live {target} {tmp} o old i fd rest ne unheld text host chunk_size options =
    At-with_self (opened tmp fd) _ (
      Sat-bind _ _
        (Sat-catch _ _
          (place-Placed target tmp old i fd rest ne unheld text host chunk_size options)
          (λ e.
            Sat-bind _ _
              (Sat-weaken _ (discard-Unplaced target old (some text)) (λ u s w h. h) (λ e s w. inl))
              (λ u.
                Sat-bind _ _
                  (Sat-weaken _ (release-Unplaced o old (some text) host chunk_size options)
                    (λ u s w h. h) (λ e s w. inl))
                  (λ u. Sat-throw e (λ s w. inl)))))
        (λ u.
          Sat-weaken _ (finish-Placed o old (some text) host chunk_size options) (λ u s w h. h)
            (λ e s w. inr)))
