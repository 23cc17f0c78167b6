-- ===== src/Locks/Ownership.antt =====
-- Who can give a lock back.
use safeatomic.Prelude.{
  ◌≡◌, refl, ap, inl, inr, ℤ, pos, negsuc, true, false, Option, none, some, Str, Bytes, Bool-cases,
  Option-cases, if◌then◌else◌,
}
use safeatomic.Prelude.Eq.{==_iff, nat_eq, list_eq}
use safeatomic.Sys.Errors.{Exception, os_error, enoent}
use safeatomic.Sys.Fs.{FilePath, Fs, visible, path_eq}
use safeatomic.Sys.World.{World}
use safeatomic.Sys.Exec.{pure}
use safeatomic.Sys.Logic.Ends.{
  Ends, Triple, Triple-bind, Triple-try_except, Triple-pure, Triple-raise,
}
use safeatomic.Sys.Files.Reads.{At, read_bytes-Read}
use safeatomic.Host.{Host}
use safeatomic.Paths.{lock_path}
use safeatomic.Locks.Payload.{LockFields, parse_lock_payload}
use safeatomic.Locks.Info.{LockInfo, unreadable, is_local, info_of_payload, inspect_lock}
use safeatomic.Locks.Release.{held_by_us, is_our_pid, remove_lock, release_lock}

-- The payload names another process, or is none that the package wrote.
abbrev pub Foreign : Host → Bytes → Type 0
Foreign host raw =
    (doc : LockFields)
    → parse_lock_payload host raw ≡ some doc
    → doc.pid ≡ some (pos host.pid)
    → doc.hostname ≡ some host.hostname
    → ⊥

is_our_pid-true : (host : Host) (o : Option ℤ) → is_our_pid host o ≡ true → o ≡ some (pos host.pid)
is_our_pid-true host none e = absurd (cc e)
is_our_pid-true host (some (pos n)) e = ap (λ k. some (pos k)) ((==_iff n host.pid).0 e)
is_our_pid-true host (some (negsuc n)) e = absurd (cc e)

is_local-true : (host : Host) (o : Option Str) → is_local host o ≡ true → o ≡ some host.hostname
is_local-true host none e = absurd (cc e)
is_local-true host (some s) e = ap some ((==_iff s host.hostname).0 e)

pub not_ours :
    (host : Host) (target : FilePath) (raw : Bytes)
    → Foreign host raw
    → held_by_us host (info_of_payload host target raw) ≡ false
unfolding info_of_payload
not_ours host target raw f = elim (Option-cases (parse_lock_payload host raw)) [
  | inl e ↦ rw (e, info_of_payload) refl
  | inr (doc, e) ↦
      rw (e, info_of_payload)
        (elim (Bool-cases (is_our_pid host doc.pid)) [
          | inr g ↦ rw g refl
          | inl g ↦ elim (Bool-cases (is_local host doc.hostname)) [
            | inr k ↦ rw (g, k) refl
            | inl k ↦
                absurd
                  (f doc e (is_our_pid-true host doc.pid g) (is_local-true host doc.hostname k))
          ]
        ])
]

module _ (host : Host) (target : FilePath) (fs : Fs) where
  unreadable-NotOurs :
      (e : Exception)
      → Triple
          (At fs)
          (unreadable target e)
          (λ info w. (held_by_us host info ≡ false) × At fs w)
          (λ x. At fs)
  unreadable-NotOurs (os_error enoent) = Triple-pure _ (λ w h. (refl, h))
  unreadable-NotOurs (os_error x) = Triple-pure _ (λ w h. (refl, h))
  unreadable-NotOurs x = Triple-raise _ (λ w h. h)

  inspect_lock-NotOurs :
      (raw : Bytes)
      → visible fs (lock_path target) ≡ some raw
      → Foreign host raw
      → Triple
          (At fs)
          (inspect_lock host target)
          (λ info w. (held_by_us host info ≡ false) × At fs w)
          (λ x. At fs)
  unfolding inspect_lock
  inspect_lock-NotOurs raw v f =
      Triple-try_except _ _
        (Triple-bind _ _ (read_bytes-Read fs (lock_path target) raw v)
          (λ x. Triple-pure _ (λ w h. (rw h.0 (not_ours host target raw f), h.1))))
        unreadable-NotOurs

  keep :
      (info : LockInfo) (w : World)
      → (held_by_us host info ≡ false) × At fs w
      → Ends
          (λ b u. (b ≡ false) × At fs u)
          (λ e. At fs)
          ((if held_by_us host info then remove_lock info.lock_path else pure false) w)
  unfolding pure
  keep info w h = rw h.0 (refl, h.1)

-- Let the lock sidecar hold a payload that does not name this process on this machine, be it the
-- payload of another or no valid one. Then `release_lock` returns `False` or raises, for every list of
-- faults, and the file system is as it was.
pub release_lock-Foreign :
    (host : Host) (target : FilePath) (raw : Bytes) (w : World)
    → visible w.fs (lock_path target) ≡ some raw
    → Foreign host raw
    → Ends
        (λ b w'. (b ≡ false) × (w'.fs ≡ w.fs))
        (λ e w'. w'.fs ≡ w.fs)
        (release_lock host target w)
unfolding release_lock
release_lock-Foreign host target raw w v f =
    (Triple-bind _ _ (inspect_lock-NotOurs host target w.fs raw v f)
        (λ info. record { at = keep host target w.fs info })).at
      w refl
