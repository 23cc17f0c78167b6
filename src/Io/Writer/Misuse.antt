-- ===== src/Io/Writer/Misuse.antt =====
-- Callers that catch what the writer raises and go on to use it.
use safeatomic.Prelude.{
  ℕ, ◌≡◌, refl, ◌⊎◌, inl, inr, Bool, true, false, Option, none, List, [], ◌∷◌, Bytes, if◌then◌else◌,
}
use safeatomic.Sys.Errors.{runtime_error}
use safeatomic.Sys.Fs.{FilePath}
use safeatomic.Sys.World.{World}
use safeatomic.Sys.Exec.{Result, ok, raised}
use safeatomic.Sys.Method.{catch, ◌>>◌, throw, return, with_self}
use safeatomic.Sys.Method.Sat.{EndsWith, Sat-bind, Sat-catch, Sat-return}
use safeatomic.Host.{Host}
use safeatomic.Io.Write.{Options}
use safeatomic.Io.Writer.{
  AtomicWriter, Writing, Action, write, flush, fileno, fd_or_raise, commit_open, commit, perform,
}
use safeatomic.Io.Writer.Lifecycle.{IsConsistent, Consistent, Steady, perform-Steady}

-- The call ends here: it raises `RuntimeError` and touches neither the writer nor the world.
abbrev pub IsRefused : {A : Type 0} → Writing A → AtomicWriter → World → Type 0
IsRefused m s w = m s w ≡ (raised runtime_error, s, w)

fd_or_raise-none :
    {A : Type 0} (fd : Option ℕ) (f : ℕ → Writing A) (s : AtomicWriter) (w : World)
    → fd ≡ none
    → fd_or_raise fd f s w ≡ (raised runtime_error, s, w)
unfolding throw
fd_or_raise-none fd f s w e = rw e refl

module _ (host : Host) (chunk_size : ℕ) (target : FilePath) (options : Options) where
  -- Calls one after the other, each in a `try` of its own.
  unfoldable pub call_each : List Action → Writing (Unit {0})
  call_each [] = return tt
  call_each (a ∷ actions) =
      catch (perform host chunk_size target options a) (λ e. return tt) >> call_each actions

  call_each-Steady : (actions : List Action) → Steady (call_each actions)
  unfolding call_each
  call_each-Steady [] = Sat-return tt (λ s w h. h)
  call_each-Steady (a ∷ actions) =
      Sat-bind _ _
        (Sat-catch _ _ (perform-Steady host chunk_size target options a)
          (λ e. Sat-return tt (λ s w h. h)))
        (λ u. call_each-Steady actions)

  Consistent-end :
      (x : Result (Unit {0}) × AtomicWriter × World)
      → EndsWith (λ u. Consistent) (λ e. Consistent) x
      → IsConsistent x.1
  Consistent-end (ok u, s, w) h = h
  Consistent-end (raised e, s, w) h = h

  -- Start from consistent fields (an open file has a name; after a commit or an abort there is
  -- none). Over any sequence of writes, syncs, commits and aborts, in any order, for every list of
  -- faults and whatever the calls raise on the way, the fields stay consistent.
  pub call_each-IsConsistent :
      (actions : List Action) (s : AtomicWriter) (w : World)
      → IsConsistent s
      → IsConsistent (call_each actions s w).1
  call_each-IsConsistent actions s w h = Consistent-end _ ((call_each-Steady actions).at s w h)

  commit-Refused :
      (s : AtomicWriter) (w : World)
      → s.fd ≡ none
      → IsRefused (commit host chunk_size target options) s w
  unfolding commit with_self throw
  commit-Refused s w e = go s.committed s.fd s.tmp e
    where
      go :
          (b : Bool) (fd : Option ℕ) (tmp : Option FilePath)
          → fd ≡ none
          → (if b then throw runtime_error else commit_open host chunk_size target options fd tmp) s
              w
            ≡ (raised runtime_error, s, w)
      go true fd tmp e = refl
      go false fd tmp e = rw e refl

  no_fd :
      (s : AtomicWriter) → IsConsistent s → (s.committed ≡ true) ⊎ (s.aborted ≡ true) → s.fd ≡ none
  no_fd s h (inl e) = h.named (h.after_commit e)
  no_fd s h (inr e) = h.named (h.after_abort e)

  -- Start from consistent fields and make any sequence of calls, caught or not. If the writer is
  -- then committed or aborted, each further `write`, `flush`, `fileno` and `commit` raises
  -- `RuntimeError` and changes neither the writer nor anything outside it.
  pub call_each-IsRefused :
      (actions : List Action) (s s' : AtomicWriter) (w w' : World)
      → IsConsistent s
      → (call_each actions s w).1 ≡ s'
      → (s'.committed ≡ true) ⊎ (s'.aborted ≡ true)
      → ((text : Bytes) → IsRefused (write text) s' w')
        × IsRefused flush s' w'
        × IsRefused fileno s' w'
        × IsRefused (commit host chunk_size target options) s' w'
  unfolding write flush fileno with_self
  call_each-IsRefused actions s s' w w' h e over =
      let c = no_fd s' (rw (← e) (call_each-IsConsistent actions s w h)) over in
      (
        λ text. fd_or_raise-none s'.fd _ s' w' c,
        fd_or_raise-none s'.fd _ s' w' c,
        fd_or_raise-none s'.fd _ s' w' c,
        commit-Refused s' w' c,
      )
