-- ===== src/Io/Returns/Metadata.antt =====
-- The copy of the metadata returns whether or not the target exists.
use safeatomic.Prelude.{
  ℕ, ◌≡◌, refl, inl, inr, Bool, true, false, none, some, Str, Option-cases, if◌then◌else◌,
}
use safeatomic.Prelude.Eq.{nat_eq, list_eq}
use safeatomic.Sys.Errors.{Exception, is_os_error}
use safeatomic.Sys.Fs.{FilePath, path_eq}
use safeatomic.Sys.World.{World}
use safeatomic.Sys.Exec.{pure, raise, suppress_os, ◌>>=◌}
use safeatomic.Sys.Calls.{call, copystat, exists, copy_attributes}
use safeatomic.Sys.Logic.Ends.{
  Ends, Ends-weaken, Triple, Triple-bind, Triple-pure, Triple-try_except,
}
use safeatomic.Io.Write.{write_copystat}
use safeatomic.Sys.Logic.Returns.{Returns, answered_call}
use safeatomic.Io.Returns.{tmp, Going, same_names}

module _ (target : FilePath) (name : Str) where
  copystat-Going :
      (i : ℕ)
      → Returns
          (λ w. Going target name w × (w.fs.names target ≡ some i))
          (copystat target (tmp target name))
          (λ u. Going target name)
  unfolding copystat
  copystat-Going i =
      answered_call _ _ _ (λ w h. h.0.calmly.quiet)
        (λ w h. (
          tt,
          copy_attributes i h.0.inode w.fs,
          rw (h.1, h.0.entry) refl,
          same_names target name (copy_attributes i h.0.inode w.fs) w refl refl h.0,
        ))

  Tried : Exception → World → Type 0
  Tried e w = Going target name w × (is_os_error e ≡ true)

  refused_copy :
      (w : World)
      → Going target name w
      → w.fs.names target ≡ none
      → Ends (λ u. Going target name) Tried (copystat target (tmp target name) w)
  unfolding copystat call Tried is_os_error
  refused_copy w h e = rw h.calmly.quiet (
      rw e (
        record {
          calmly = record { quiet = refl; present_dir = h.calmly.present_dir };
          inode = h.inode;
          entry = h.entry;
        },
        refl,
      ))

  copystat-Tried :
      Triple (Going target name) (copystat target (tmp target name)) (λ u. Going target name) Tried
  copystat-Tried = record {
    at = λ w h. elim (Option-cases (w.fs.names target)) [
      | inl e ↦ refused_copy w h e
      | inr (i, e) ↦
          Ends-weaken (λ u. Going target name) (λ u. Going target name) (λ x u. ⊥) Tried _
            ((copystat-Going i).at w (h, e)) (λ u x k. k) (λ u x k. absurd k)
    ];
  }

  exists-Going : Returns (Going target name) (exists target) (λ found. Going target name)
  unfolding exists
  exists-Going = record {
    at = λ w h. rw h.calmly.quiet (record {
      calmly = record { quiet = refl; present_dir = h.calmly.present_dir };
      inode = h.inode;
      entry = h.entry;
    });
  }

  pub write_copystat-Going :
      (preserve_metadata : Bool)
      → Returns
          (Going target name)
          (write_copystat target (tmp target name) preserve_metadata)
          (λ u. Going target name)
  unfolding write_copystat suppress_os Tried
  write_copystat-Going preserve_metadata = asked preserve_metadata
    where
      let_pass :
          (e : Exception)
          → Returns (Tried e) (if is_os_error e then pure tt else raise e) (λ u. Going target name)
      let_pass e = record { at = λ w h. rw h.1 (unfold pure in h.0) }

      attempted :
          (b : Bool)
          → Returns
              (Going target name)
              (if b then suppress_os (copystat target (tmp target name)) else pure tt)
              (λ u. Going target name)
      attempted false = Triple-pure _ (λ w h. h)
      attempted true =
          Triple-try_except _ _ (Triple-bind _ _ copystat-Tried (λ u. Triple-pure _ (λ w h. h)))
            let_pass

      asked :
          (b : Bool)
          → Returns
              (Going target name)
              (if b
                then (do
                  found ← exists target
                  if found then suppress_os (copystat target (tmp target name)) else pure tt)
                else pure tt)
              (λ u. Going target name)
      asked false = Triple-pure _ (λ w h. h)
      asked true = Triple-bind _ _ exists-Going attempted
