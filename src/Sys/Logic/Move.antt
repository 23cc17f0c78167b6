-- ===== src/Sys/Logic/Move.antt =====
-- A call that takes the world from one state to another, or leaves it in the first.
use safeatomic.Prelude.{◌∷◌}
use safeatomic.Sys.Fs.{Fs}
use safeatomic.Sys.World.{Fault, pass, short, fail, World}
use safeatomic.Sys.Calls.{Reply, done, refused, call, settle, attempt, first_fault, later_faults}
use safeatomic.Sys.Logic.Ends.{Ends, Triple}

abbrev pub later : World → World
later w = record w { faults = later_faults w.faults }

-- What the world is after the answer.
abbrev pub ReplyTo : {A : Type 0} → (A → World → Type 0) → World → Reply A → Type 0
ReplyTo Q w (done x fs) = Q x (record w { fs = fs; trace = fs ∷ w.trace })
ReplyTo Q w (refused e) = Unit

module _ {A : Type 0} (P : World → Type 0) (Q : A → World → Type 0) where
  settle-Ends :
      (reply : Reply A) (w : World) → P w → ReplyTo Q w reply → Ends Q (λ e. P) (settle reply w)
  settle-Ends (done x fs) w h k = k
  settle-Ends (refused e) w h k = h

  attempt-Ends :
      (f : Fault) (op : Fs → Reply A) (w : World)
      → P w
      → ReplyTo Q w (op w.fs)
      → Ends Q (λ e. P) (attempt f op w)
  attempt-Ends pass op w h k = settle-Ends (op w.fs) w h k
  attempt-Ends (short n) op w h k = settle-Ends (op w.fs) w h k
  attempt-Ends (fail e) op w h k = h

  pub Triple-call :
      (op : Fs → Reply A)
      → ((w : World) → P w → P (later w))
      → ((w : World) → P w → ReplyTo Q w (op w.fs))
      → Triple P (call op) Q (λ e. P)
  unfolding call
  Triple-call op l k = record {
    at = λ w h. attempt-Ends (first_fault w.faults) op (later w) (l w h) (k (later w) (l w h));
  }
