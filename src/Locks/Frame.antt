-- ===== src/Locks/Frame.antt =====
-- The lock operations and the files other than the lock's sidecar.
use safeatomic.Prelude.{
  ◌≡◌, ◌≢◌, refl, inl, inr, Option-cases, ℕ, zero, suc, ℤ, pos, negsuc, true, false, Option, none,
  some, Bytes, Str, codes, ltb, ◌&&◌, if◌then◌else◌,
}
use safeatomic.Constants.{SafetyPolicy, unrecognised}
use safeatomic.Sys.Errors.{Exception, os_error, enoent, eexist, is_os_error}
use safeatomic.Sys.Fs.{FilePath}
use safeatomic.Sys.World.{World}
use safeatomic.Sys.Exec.{pure, ◌>>◌}
use safeatomic.Sys.Logic.Keeps.{
  Keeps, Keeps-bind, Keeps-if, Keeps-try_except, Keeps-finally, Keeps-pure, Keeps-raise,
  Keeps-suppress_os, Keeps-option,
}
use safeatomic.Sys.Logic.Ends.{
  Triple, Triple-bind, Triple-pure, Triple-raise, Triple-try_except, Triple-of_Keeps,
  Keeps-of_Triple,
}
use safeatomic.Sys.Files.Holds.{Range, Holds}
use safeatomic.Sys.Files.Frame.{Keeps-unlink, Keeps-read_bytes, Keeps-now}
use safeatomic.Sys.Files.Descriptors.{Keeps-write, Keeps-close}
use safeatomic.Sys.Files.Creation.{Keeps-open_excl, Keeps-sleep}
use safeatomic.Sys.Calls.{sleep}
use safeatomic.Host.{Host}
use safeatomic.Paths.{lock_path}
use safeatomic.Locks.Payload.{build_payload, parse_lock_payload}
use safeatomic.Locks.Info.{unreadable, info_of_payload, inspect_lock, LockInfo}
use safeatomic.Locks.Acquire.{
  Opened, contended, opened, open_failed, open_lock, fill_lock, validate_safety, session_to_hash,
  acquire_loop, acquire_checked, try_acquire_lock,
}
use safeatomic.Locks.Release.{removal_failed, remove_lock, held_by_us, release_lock}

module _ {P : World → Type 0} (host : Host) where
  pub build_payload-Keeps :
      (session_hash : Option Str) (t : ℕ) → Keeps P (build_payload host session_hash t)
  unfolding build_payload
  build_payload-Keeps session_hash t = Keeps-option _ _ _ (Keeps-raise _) (λ x. Keeps-pure x)

  pub session_to_hash-Keeps : (session : Option Str) → Keeps P (session_to_hash host session)
  unfolding session_to_hash
  session_to_hash-Keeps none = Keeps-pure _
  session_to_hash-Keeps (some session) =
      Keeps-option (host.encode (codes "utf-8") session) _ _ (Keeps-raise _) (λ bytes.
        Keeps-option (host.digest (codes "sha256")) _ _ (Keeps-raise _) (λ hexdigest. Keeps-pure _))

module _ {P : World → Type 0} where
  pub open_failed-Keeps : (e : Exception) → Keeps P (open_failed e)
  open_failed-Keeps (os_error eexist) = Keeps-pure _
  open_failed-Keeps (os_error _) = Keeps-raise _
  open_failed-Keeps _ = Keeps-raise _

  removal_failed-Keeps : (e : Exception) → Keeps P (removal_failed e)
  removal_failed-Keeps (os_error enoent) = Keeps-pure _
  removal_failed-Keeps (os_error _) = Keeps-raise _
  removal_failed-Keeps _ = Keeps-raise _

  unreadable-Keeps : (target : FilePath) (e : Exception) → Keeps P (unreadable target e)
  unreadable-Keeps target (os_error enoent) = Keeps-pure _
  unreadable-Keeps target (os_error _) = Keeps-pure _
  unreadable-Keeps target _ = Keeps-raise _

  pub validate_safety-Keeps : (safety : SafetyPolicy) → Keeps P (validate_safety safety)
  unfolding validate_safety
  validate_safety-Keeps (unrecognised x) = Keeps-raise _
  validate_safety-Keeps _ = Keeps-pure _

-- The snapshot is one of the target's lock.
abbrev Inspected : (World → Type 0) → FilePath → LockInfo → World → Type 0
Inspected P target info w = P w × (info.lock_path ≡ lock_path target)

lock_path-info_of_payload :
    (host : Host) (target : FilePath) (raw : Bytes)
    → (info_of_payload host target raw).lock_path ≡ lock_path target
unfolding info_of_payload
lock_path-info_of_payload host target raw = elim (Option-cases (parse_lock_payload host raw)) [
  | inl e ↦ rw (e, info_of_payload)
  | inr (x, e) ↦ rw (e, info_of_payload)
]

module _ {target : FilePath} {c d a b v : Option Bytes} (r : Range c d a b v) (host : Host)
    (locked : FilePath) (ne : lock_path locked ≢ target) where
  Keeps-open_lock : Keeps (Holds target c d a b v) (open_lock (lock_path locked))
  unfolding open_lock
  Keeps-open_lock =
      Keeps-try_except _ _ (Keeps-bind _ _ (Keeps-open_excl r _ (ne)) (λ fd. Keeps-pure _))
        open_failed-Keeps

  Keeps-fill_lock :
      (fd : ℕ) (payload : Bytes)
      → Keeps (Holds target c d a b v) (fill_lock (lock_path locked) fd payload)
  unfolding fill_lock
  Keeps-fill_lock fd payload =
      Keeps-try_except _ _
        (Keeps-finally _ _ (Keeps-bind _ _ (Keeps-write r fd payload) (λ n. Keeps-pure _))
          (Keeps-close r fd))
        (λ e.
          Keeps-if (is_os_error e) _ _
            (Keeps-bind _ _ (Keeps-suppress_os _ (Keeps-unlink r _ (ne))) (λ u. Keeps-raise _))
            (Keeps-raise _))

  Keeps-acquire_loop :
      (attempts : ℕ) (session_hash : Option Str) (delay : ℕ)
      → Keeps
          (Holds target c d a b v)
          (acquire_loop host attempts (lock_path locked) session_hash delay)
  unfolding acquire_loop
  Keeps-acquire_loop zero session_hash delay = Keeps-pure _
  Keeps-acquire_loop (suc attempts) session_hash delay = Keeps-bind _ _ (Keeps-now r) (λ t.
      Keeps-bind _ _ (build_payload-Keeps host session_hash t) (λ payload.
        Keeps-bind _ _ Keeps-open_lock
          (go payload (Keeps-acquire_loop attempts session_hash delay))))
    where
      go :
          (payload : Bytes)
          → Keeps
              (Holds target c d a b v)
              (acquire_loop host attempts (lock_path locked) session_hash delay)
          → (result : Opened)
          → Keeps (Holds target c d a b v) (elim result [
            | contended ↦ (do
              if (ltb 0 attempts && ltb 0 delay) then sleep delay else pure tt
              acquire_loop host attempts (lock_path locked) session_hash delay)
            | opened fd ↦ (do fill_lock (lock_path locked) fd payload; pure true)
          ])
      go payload ih contended =
          Keeps-bind _ _ (Keeps-if _ _ _ (Keeps-sleep r delay) (Keeps-pure _)) (λ u. ih)
      go payload ih (opened fd) = Keeps-bind _ _ (Keeps-fill_lock fd payload) (λ u. Keeps-pure _)

  acquire_checked-Keeps :
      (session : Option Str) (retries delay : ℤ)
      → Keeps (Holds target c d a b v) (acquire_checked host locked session retries delay)
  acquire_checked-Keeps session (negsuc x) delay = Keeps-raise _
  acquire_checked-Keeps session (pos x) (negsuc y) = Keeps-raise _
  acquire_checked-Keeps session (pos x) (pos y) =
      Keeps-bind _ _ (session_to_hash-Keeps host session) (λ h. Keeps-acquire_loop _ h y)

  pub Keeps-try_acquire_lock :
      (session : Option Str) (retries delay : ℤ) (safety : SafetyPolicy)
      → Keeps (Holds target c d a b v) (try_acquire_lock host locked session retries delay safety)
  unfolding try_acquire_lock
  Keeps-try_acquire_lock session retries delay safety =
      Keeps-bind _ _ (validate_safety-Keeps safety)
        (λ u. acquire_checked-Keeps session retries delay)

  Keeps-inspect_lock : Keeps (Holds target c d a b v) (inspect_lock host locked)
  unfolding inspect_lock
  Keeps-inspect_lock =
      Keeps-try_except _ _ (Keeps-bind _ _ (Keeps-read_bytes r _) (λ raw. Keeps-pure _))
        (unreadable-Keeps locked)

  remove_lock-Keeps :
      (lf : FilePath) → lf ≢ target → Keeps (Holds target c d a b v) (remove_lock lf)
  unfolding remove_lock
  remove_lock-Keeps lf h =
      Keeps-try_except _ _ (Keeps-bind _ _ (Keeps-unlink r _ h) (λ u. Keeps-pure _))
        removal_failed-Keeps

  unreadable-Inspected :
      (e : Exception)
      → Triple
          (Holds target c d a b v)
          (unreadable locked e)
          (Inspected (Holds target c d a b v) locked)
          (λ e. Holds target c d a b v)
  unreadable-Inspected (os_error enoent) = Triple-pure _ (λ w h. (h, refl))
  unreadable-Inspected (os_error x) = Triple-pure _ (λ w h. (h, refl))
  unreadable-Inspected x = Triple-raise _ (λ w h. h)

  Triple-inspect_lock :
      Triple
        (Holds target c d a b v)
        (inspect_lock host locked)
        (Inspected (Holds target c d a b v) locked)
        (λ e. Holds target c d a b v)
  unfolding inspect_lock
  Triple-inspect_lock =
      Triple-try_except _ _
        (Triple-bind _ _ (Triple-of_Keeps _ (Keeps-read_bytes r (lock_path locked)))
          (λ raw. Triple-pure _ (λ w h. (h, lock_path-info_of_payload host locked raw))))
        unreadable-Inspected

  pub Keeps-release_lock : Keeps (Holds target c d a b v) (release_lock host locked)
  unfolding release_lock
  Keeps-release_lock = Keeps-of_Triple _ (Triple-bind _ _ Triple-inspect_lock after_inspection)
    where
      after_inspection :
          (info : LockInfo)
          → Triple
              (Inspected (Holds target c d a b v) locked info)
              (if held_by_us host info then remove_lock info.lock_path else pure false)
              (λ x. Holds target c d a b v)
              (λ e. Holds target c d a b v)
      after_inspection info = record {
        at = λ w h.
            (Triple-of_Keeps _ (
                Keeps-if (held_by_us host info) _ _
                  (rw h.1 (remove_lock-Keeps (lock_path locked) (ne))) (Keeps-pure _))).at
              w h.0;
      }
