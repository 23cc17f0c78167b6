-- ===== src/Io/Staged/Replace.antt =====
-- Step 11: the replacement of the target, and with it the whole of `place_tmp`.
use safeatomic.Prelude.{ℕ, ◌≢◌, inl, inr, Bool, Option, none, some, List, ◌∷◌, Bytes, Bool-cases}
use safeatomic.Prelude.Eq.{◌==◌, nat_eq}
use safeatomic.Sys.Fs.{FilePath, update, update_self, path_eq}
use safeatomic.Sys.World.{Handle, World}
use safeatomic.Sys.Calls.{rename, replace, replace_entry}
use safeatomic.Sys.Logic.Ends.{Triple, Triple-bind, Triple-on_error, Triple-of_Keeps, Triple-weaken}
use safeatomic.Sys.Logic.Move.{ReplyTo, Triple-call}
use safeatomic.Sys.Files.{Unheld}
use safeatomic.Sys.Files.Holds.{Good-of_Settled}
use safeatomic.Io.Write.{place_tmp}
use safeatomic.Host.{Host}
use safeatomic.Io.Staged.{Before}
use safeatomic.Io.Staged.Sync.{clean_up-Keeps}
use safeatomic.Io.Staged.Place.{
  After, after, AllClear-moved, rename-After, Closed, later-Closed, write_copystat-Closed,
  write_device_check-Closed,
}

module _ (target tmp : FilePath) (old : Option Bytes) (i : ℕ) (rest : List (ℕ × Handle))
    (text : Bytes) (ne : tmp ≢ target) (u : Unheld i rest) where
  renamed : World → World
  renamed w = let fs = rename tmp target i w.fs in record w { fs = fs; trace = fs ∷ w.trace }

  renamed-After :
      (w : World) → Closed target tmp old i rest text w → After target old (some text) (renamed w)
  unfolding renamed
  renamed-After w h =
      let s = rename-After ne h.staged.holds.settled h.staged.at h.saved in
      record {
        settled = s;
        clear =
            rw (update_self (update w.fs.names tmp none) target (some i))
              (AllClear-moved _ _ i w.fds h.staged.holds.clear (rw h.staged.opened u));
        held = h.staged.holds.held;
        past = (Good-of_Settled (after old (some text)) _ s, h.staged.holds.past);
        calm = h.staged.holds.calm;
      }

  replace_entry-After :
      (w : World)
      → Closed target tmp old i rest text w
      → ReplyTo (λ x. After target old (some text)) w (replace_entry tmp target w.fs)
  unfolding replace_entry renamed
  replace_entry-After w h =
      rw (h.staged.at.named, replace_entry, ReplyTo)
        (elim (Bool-cases (w.fs.is_dir target.dir)) [
          | inr e ↦ rw e tt
          | inl e ↦ elim (Bool-cases (w.fs.device tmp.dir == w.fs.device target.dir)) [
            | inr f ↦ rw (e, f) tt
            | inl f ↦ rw (e, f) (renamed-After w h)
          ]
        ])

  -- The replacement shows the new text, which has reached the disk, or changes nothing.
  pub replace-After :
      Triple
        (Closed target tmp old i rest text)
        (replace tmp target)
        (λ x. After target old (some text))
        (λ e. Before target old (some text))
  unfolding replace
  replace-After =
      Triple-weaken _
        (Triple-call (Closed target tmp old i rest text) (λ x. After target old (some text))
          (replace_entry tmp target) (later-Closed target tmp old i rest text) replace_entry-After)
        (λ x w h. h) (λ e w h. h.staged.holds)

  pub place_tmp-After :
      (host : Host) (chunk_size : ℕ) (preserve_metadata : Bool)
      → Triple
          (Closed target tmp old i rest text)
          (place_tmp host chunk_size target tmp preserve_metadata)
          (λ x. After target old (some text))
          (λ e. Before target old (some text))
  unfolding place_tmp
  place_tmp-After host chunk_size preserve_metadata =
      Triple-on_error _ _
        (Triple-bind _ _
          (Triple-weaken _
            (Triple-of_Keeps _ (write_copystat-Closed target tmp old i rest text preserve_metadata))
            (λ x w h. h) (λ e w h. h.staged.holds))
          (λ x.
            Triple-bind _ _
              (Triple-weaken _
                (Triple-of_Keeps _ (write_device_check-Closed target tmp old i rest text))
                (λ x w h. h) (λ e w h. h.staged.holds))
              (λ y. replace-After)))
        (λ e. Triple-of_Keeps _ (clean_up-Keeps target tmp old (some text) none ne))
