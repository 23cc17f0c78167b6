-- ===== src/Sys/Files/Outcome.antt =====
-- The two ways a call can end, as equations on the world after it.
use safeatomic.Prelude.{◌≡◌, ◌∙◌, refl}
use safeatomic.Sys.Errors.{Exception}
use safeatomic.Sys.Fs.{Fs}
use safeatomic.Sys.World.{World, Fault, pass, short, fail}
use safeatomic.Sys.Exec.{Result, ok, raised}
use safeatomic.Sys.Calls.{Reply, done, refused, first_fault, later_faults, settle, attempt, call}
use safeatomic.Sys.Logic.Ends.{Ends}

-- The file system and the descriptors are these.
pub record Stands (w' : World) (fs : Fs) (w : World) : Type 0 where
  pub files : w'.fs ≡ fs
  pub fds : w'.fds ≡ w.fds

-- A call that is answered either returns the answer and leaves its file system, or raises and
-- changes nothing; one that is refused raises.
abbrev pub Answered : {A : Type 0} → Reply A → World → Result A × World → Type 0
Answered (done x fs) w = Ends (λ y w'. (y ≡ x) × Stands w' fs w) (λ e w'. Stands w' w.fs w)
Answered (refused e) w = Ends (λ y w'. ⊥) (λ e w'. Stands w' w.fs w)

module _ {A : Type 0} where
  settle-Answered : (reply : Reply A) (w : World) → Answered reply w (settle reply w)
  settle-Answered (done x fs) w = (refl, record { files = refl; fds = refl })
  settle-Answered (refused e) w = record { files = refl; fds = refl }

  failed-Answered :
      (reply : Reply A) (w w' : World) (e : Exception)
      → Stands w' w.fs w
      → Answered reply w (raised e, w')
  failed-Answered (done x fs) w w' e h = h
  failed-Answered (refused x) w w' e h = h

  attempt-Answered :
      (f : Fault) (op : Fs → Reply A) (w : World) → Answered (op w.fs) w (attempt f op w)
  attempt-Answered pass op w = settle-Answered (op w.fs) w
  attempt-Answered (short n) op w = settle-Answered (op w.fs) w
  attempt-Answered (fail e) op w =
      failed-Answered (op w.fs) w w _ (record { files = refl; fds = refl })

  earlier-Answered :
      (reply : Reply A) (w w' : World) (x : Result A × World)
      → w'.fs ≡ w.fs
      → w'.fds ≡ w.fds
      → Answered reply w' x
      → Answered reply w x
  earlier-Answered (done y fs) w w' (ok a, u) e f h =
      (h.0, record { files = h.1.files; fds = h.1.fds ∙ f })
  earlier-Answered (done y fs) w w' (raised x, u) e f h = record {
    files = h.files ∙ e;
    fds = h.fds ∙ f;
  }
  earlier-Answered (refused y) w w' (ok a, u) e f h = h
  earlier-Answered (refused y) w w' (raised x, u) e f h = record {
    files = h.files ∙ e;
    fds = h.fds ∙ f;
  }

  pub call-Answered : (op : Fs → Reply A) (w : World) → Answered (op w.fs) w (call op w)
  unfolding call
  call-Answered op w =
      earlier-Answered (op w.fs) w (record w { faults = later_faults w.faults }) _ refl refl
        (attempt-Answered (first_fault w.faults) op (record w { faults = later_faults w.faults }))

  settle-fds : (reply : Reply A) (w : World) → (settle reply w).1.fds ≡ w.fds
  settle-fds (done x fs) w = refl
  settle-fds (refused e) w = refl

  attempt-fds : (f : Fault) (op : Fs → Reply A) (w : World) → (attempt f op w).1.fds ≡ w.fds
  attempt-fds pass op w = settle-fds (op w.fs) w
  attempt-fds (short n) op w = settle-fds (op w.fs) w
  attempt-fds (fail e) op w = refl

  -- No call but `open` and `close` changes the descriptors.
  pub call-fds : (op : Fs → Reply A) (w : World) → (call op w).1.fds ≡ w.fds
  unfolding call
  call-fds op w =
      attempt-fds (first_fault w.faults) op (record w { faults = later_faults w.faults })
