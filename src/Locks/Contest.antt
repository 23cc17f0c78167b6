-- ===== src/Locks/Contest.antt =====
-- Several processes that contend for one lock: their calls of _locks.py, one after the other, against
-- the lock of formal/SafeAtomicLock.tla, which has one holder or none.
pub mod Holding
mod Refusals
mod Recovery
use safeatomic.Prelude.{
  ℕ, suc, ◌≡◌, ℤ, pos, Bool, Option, none, some, List, [], ◌∷◌, ◌++◌, map, Bytes, codes, arith,
}
use safeatomic.Prelude.Eq.{==_refl, nat_eq, list_eq}
use safeatomic.Constants.{SafetyPolicy, strict}
use safeatomic.Sys.Fs.{FilePath, visible}
use safeatomic.Sys.World.{World}
use safeatomic.Sys.Exec.{Exec, pure, ◌>>=◌}
use safeatomic.Sys.Logic.Ends.{Ends, Triple, Ends-weaken}
use safeatomic.Sys.Logic.Returns.{Returns}
use safeatomic.Host.{Host, no_process}
use safeatomic.Paths.{lock_path}
use safeatomic.Locks.Payload.{parse_lock_payload}
use safeatomic.Locks.Contest.Holding.{Act, acquire, release, force, recover, Turn, Log, Turns}
use safeatomic.Locks.Acquire.{try_acquire_lock}
use safeatomic.Locks.Release.{release_lock, force_release_lock, release_stale_lock}
use safeatomic.Locks.RoundTrip.{Ours}
use safeatomic.Locks.Cycle.Take.{Mine, Vacant}
use safeatomic.Locks.Contest.Refusals.{Encodes}

-- Both ran on one machine, and no process has the number of `j` now.
abbrev pub Gone : (ℕ → Host) → ℕ → ℕ → Type 0
Gone hosts i j =
    (n : ℕ) × ((hosts j).pid ≡ suc n)
    × ((hosts j).hostname ≡ (hosts i).hostname)
    × ((hosts i).kill (suc n) ≡ no_process)

-- The processes, and the payload that each writes at each time.
module _ (hosts : ℕ → Host) (payload : ℕ → ℕ → Bytes) (target : FilePath) where
  abbrev pub perform : Act → Exec Bool
  perform (acquire i) = try_acquire_lock (hosts i) target none (pos 0) (pos 0) strict
  perform (release i) = release_lock (hosts i) target
  perform (force i) = force_release_lock target
  perform (recover i) = release_stale_lock (hosts i) target none

  abbrev pub contest : List Act → Exec Log
  contest [] = pure []
  contest (act ∷ acts) = do b ← perform act; log ← contest acts; pure ((act, b) ∷ log)

  -- What the sidecar holds.
  abbrev pub Sidecar : Option ℕ → World → Type 0
  Sidecar none w = visible w.fs (lock_path target) ≡ none
  Sidecar (some i) w = (t : ℕ) × (visible w.fs (lock_path target) ≡ some (payload i t))

  abbrev Held : Option ℕ → World → Type 0
  Held none w = Vacant (lock_path target) w
  Held (some i) w = (t : ℕ) × Mine (lock_path target) (payload i t) w

  -- The call returns a value that a turn allows.
  abbrev Turned : Option ℕ → Act → Bool → World → Type 0
  Turned h act b w = (h' : Option ℕ) × Turn (Gone hosts) h act b h' × Held h' w

  module _ (encodes : (i : ℕ) → Encodes (hosts i) (payload i))
      (parses : (i j t : ℕ)
        → parse_lock_payload (hosts j) (payload i t) ≡ some (Ours (hosts i) none t))
      (apart : (i j : ℕ)
        → (hosts i).pid ≡ (hosts j).pid
        → (hosts i).hostname ≡ (hosts j).hostname
        → i ≡ j) where
    -- The log is of these calls, and its turns lead from this holder to the one of the sidecar.
    abbrev Contested : Option ℕ → List Act → Log → World → Type 0
    Contested h acts log w =
        (h' : Option ℕ) × (map (λ e. e.0) log ≡ acts) × Turns (Gone hosts) h log h' × Held h' w
