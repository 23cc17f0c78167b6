-- ===== src/Sys/Logic/Returns.antt =====
-- Actions that do not raise, and calls in a world in which no fault is to come.
use safeatomic.Prelude.{◌≡◌, [], ◌∷◌}
use safeatomic.Sys.Errors.{Exception, Errno, os_error}
use safeatomic.Sys.Fs.{Fs}
use safeatomic.Sys.World.{World}
use safeatomic.Sys.Exec.{Exec}
use safeatomic.Sys.Calls.{Reply, done, refused, call}
use safeatomic.Sys.Logic.Ends.{Triple}

-- It does not raise.
abbrev pub Returns : {A : Type 0} → (World → Type 0) → Exec A → (A → World → Type 0) → Type 0
Returns P m Q = Triple P m Q (λ e w. ⊥)

abbrev pub after_call : World → Fs → World
after_call w fs = record w { fs = fs; trace = fs ∷ w.trace; faults = [] }

module _ {A : Type 0} (P : World → Type 0) (Q : A → World → Type 0) where
  -- A call that is answered, in a world without faults.
  pub answered_call :
      (op : Fs → Reply A)
      → ((w : World) → P w → w.faults ≡ [])
      → ((w : World) → P w → (x : A) × (fs : Fs) × (op w.fs ≡ done x fs) × Q x (after_call w fs))
      → Returns P (call op) Q
  unfolding call
  answered_call op q k = record { at = λ w h. let (x, fs, e, r) = k w h in rw (q w h) (rw e r) }

module _ {A : Type 0} (P : World → Type 0) (R : Exception → World → Type 0) where
  -- A call that is refused, in a world without faults.
  pub refused_call :
      (op : Fs → Reply A)
      → ((w : World) → P w → w.faults ≡ [])
      → ((w : World)
          → P w
          → (e : Errno) × (op w.fs ≡ refused e) × R (os_error e) (record w { faults = [] }))
      → Triple P (call op) (λ a w. ⊥) R
  unfolding call
  refused_call op q k = record { at = λ w h. let (e, f, r) = k w h in rw (q w h) (rw f r) }
