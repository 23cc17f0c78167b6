-- ===== src/Locks/Cycle.antt =====
-- Acquisition and release of a free lock where no call fails.
pub mod Take
use safeatomic.Prelude.{
  ℕ, zero, suc, ◌+◌, ◌<◌, ◌≡◌, ◌≢◌, refl, ◌∙◌, sym, ap, inl, inr, ℤ, pos, Bool, true, false, ◌&&◌,
  not, Option, none, some, List, [], ◌∷◌, ◌++◌, Bytes, Str, codes, length, arith, Bool-cases,
  Option-cases, if◌then◌else◌, ltb,
}
use safeatomic.Prelude.Eq.{◌==◌, ==_refl, nat_eq, list_eq}
use safeatomic.Constants.{SafetyPolicy, strict, warn, best_effort, unrecognised}
use safeatomic.Sys.Errors.{Exception, is_os_error}
use safeatomic.Sys.Fs.{FilePath, Fs, path_eq, update, update_self, visible}
use safeatomic.Sys.World.{Fault, Handle, file, World}
use safeatomic.Sys.Exec.{
  Exec, Result, ok, raised, pure, raise, gets, modify, finally, try_except, ◌>>=◌, ◌>>◌,
}
use safeatomic.Sys.Calls.{
  call, first_fault, granted, lookup_fd, erase_fd, new_fd, create_excl, open_excl, with_entry,
  write, append_body, close, remove_entry, unlink, now, read_bytes, sleep,
}
use safeatomic.Sys.Logic.Ends.{
  Ends, Triple, Triple-bind, Triple-weaken, Triple-pure, Triple-finally, Triple-try_except,
}
use safeatomic.Sys.Logic.Returns.{Returns, after_call, answered_call}
use safeatomic.Host.{Host}
use safeatomic.Paths.{lock_path}
use safeatomic.Locks.Payload.{document, build_payload, LockFields, parse_lock_payload}
use safeatomic.Locks.Info.{LockInfo, info_of_payload, inspect_lock, unreadable, is_local}
use safeatomic.Locks.Acquire.{
  Opened, contended, opened, open_lock, fill_lock, validate_safety, session_to_hash, acquire_loop,
  acquire_checked, try_acquire_lock, open_failed,
}
use safeatomic.Locks.Release.{held_by_us, is_our_pid, remove_lock, release_lock, removal_failed}
use safeatomic.Locks.Cycle.Take.{never, Free, Mine, Vacant, loop-Mine}

module _ (target : FilePath) (host : Host) (text : Bytes) where
  pub inspect-Mine :
      Returns
        (Mine (lock_path target) text)
        (inspect_lock host target)
        (λ info w. Mine (lock_path target) text w × (info ≡ info_of_payload host target text))
  unfolding inspect_lock read_bytes
  inspect-Mine =
      Triple-try_except {R = λ e w. ⊥} _ _
        (Triple-bind _ _
          (answered_call (Mine (lock_path target) text)
            (λ x w. Mine (lock_path target) text w × (x ≡ text)) _ (λ w h. h.quiet)
            (λ w h. (
              w.fs.body h.inode,
              w.fs,
              rw h.named refl,
              (
                record {
                  quiet = refl;
                  inode = h.inode;
                  named = h.named;
                  filled = h.filled;
                  folder = h.folder;
                },
                h.filled,
              ),
            )))
          (λ x. Triple-pure _ (λ w h. (h.0, rw h.1 refl))))
        (λ e. never _)

  pub remove-Free :
      Returns
        (Mine (lock_path target) text)
        (remove_lock (lock_path target))
        (λ b w. (b ≡ true) × Vacant (lock_path target) w)
  unfolding remove_lock unlink remove_entry
  remove-Free =
      Triple-try_except {R = λ e w. ⊥} _ _
        (Triple-bind _ _
          (answered_call (Mine (lock_path target) text) (λ u. Vacant (lock_path target)) _
            (λ w h. h.quiet)
            (λ w h. (
              tt,
              record w.fs { names = update w.fs.names (lock_path target) none },
              rw (h.named, remove_entry) refl,
              record {
                quiet = refl;
                folder = h.folder;
                unnamed = update_self w.fs.names (lock_path target) none;
              },
            )))
          (λ u. Triple-pure true (λ w h. (refl, h))))
        (λ e. never _)

module _ (target : FilePath) (host : Host) (text : Bytes) (t : ℕ)
    (encoded : host.encode (codes "utf-8") (host.dumps (document host none t) ++ 10 ∷ [])
      ≡ some text) where
  abbrev Ready : World → Type 0
  Ready = Free (lock_path target) t

  known_policy-Ready :
      (safety : SafetyPolicy)
      → ((word : Str) → safety ≢ unrecognised word)
      → Returns Ready (validate_safety safety) (λ u. Ready)
  unfolding validate_safety pure
  known_policy-Ready strict k = record { at = λ w h. h }
  known_policy-Ready warn k = record { at = λ w h. h }
  known_policy-Ready best_effort k = record { at = λ w h. h }
  known_policy-Ready (unrecognised word) k = absurd (k word refl)

  pub acquire-Mine :
      (retries delay : ℕ) (safety : SafetyPolicy)
      → ((word : Str) → safety ≢ unrecognised word)
      → Returns Ready
          (try_acquire_lock host target none (pos retries) (pos delay) safety)
          (λ b w. (b ≡ true) × Mine (lock_path target) text w)
  unfolding try_acquire_lock session_to_hash
  acquire-Mine retries delay safety k = Triple-bind _ _ (known_policy-Ready safety k) (λ u.
      Triple-bind {Q = λ h w. Ready w × (h ≡ none)} _ _ (Triple-pure none (λ w h. (h, refl))) (λ h.
        record {
          at = λ w r.
              rw (r.1, plus_one retries)
                ((loop-Mine (lock_path target) host text t encoded retries delay).at w r.0);
        }))
    where
      plus_one : (n : ℕ) → n + 1 ≡ suc n
      plus_one n = omega arith

  module _ (doc : LockFields) (parsed : parse_lock_payload host text ≡ some doc)
      (our_pid : doc.pid ≡ some (pos host.pid)) (our_host : doc.hostname ≡ some host.hostname) where
    ours : held_by_us host (info_of_payload host target text) ≡ true
    unfolding info_of_payload
    ours =
        rw (parsed, info_of_payload)
          (rw (our_pid, our_host) (rw (==_refl host.pid, ==_refl host.hostname) refl))

    removed-Free :
        Returns
          (Mine (lock_path target) text)
          (remove_lock (info_of_payload host target text).lock_path)
          (λ b w. (b ≡ true) × Vacant (lock_path target) w)
    unfolding info_of_payload
    removed-Free = rw (parsed, info_of_payload) (remove-Free target host text)

    pub release-Free :
        Returns
          (Mine (lock_path target) text)
          (release_lock host target)
          (λ b w. (b ≡ true) × Vacant (lock_path target) w)
    unfolding release_lock
    release-Free =
        Triple-bind _ _ (inspect-Mine target host text)
          (λ info. record { at = λ w h. rw h.1 (rw ours (removed-Free.at w h.0)) })

    gone-Free :
        Returns
          (Mine (lock_path target) text)
          (release_lock host target)
          (λ b w. (b ≡ true) × (w.fs.names (lock_path target) ≡ none))
    gone-Free = Triple-weaken _ release-Free (λ b w h. (h.0, h.1.unnamed)) (λ e w h. h)

    cycle-Free :
        (x : Result Bool × World)
        → Ends (λ b w. (b ≡ true) × Mine (lock_path target) text w) (λ e w. ⊥) x
        → Ends
            (λ b w.
              (b ≡ true)
              × (visible w.fs (lock_path target) ≡ some text)
              × Ends
                  (λ c u. (c ≡ true) × (u.fs.names (lock_path target) ≡ none))
                  (λ e u. ⊥)
                  (release_lock host target w))
            (λ e w. ⊥)
            x
    cycle-Free (ok b, w) h = (h.0, rw (h.1.named) (ap some h.1.filled), gone-Free.at w h.1)
    cycle-Free (raised e, w) h = h

-- Let no call fail, the lock's directory be there, its sidecar not exist, no session be given, neither
-- `retries` nor `delay` be negative, and the policy be one of the three; and let the payload of this
-- process at this time, encoded, be read back with its process number and host name. Then
-- `try_acquire_lock` returns `True` and the sidecar holds that payload, and a `release_lock` after it
-- returns `True` and the sidecar is gone.
pub release_lock-try_acquire_lock :
    (target : FilePath) (host : Host) (text : Bytes) (doc : LockFields) (retries delay : ℕ)
    (safety : SafetyPolicy) (w : World)
    → ((word : Str) → safety ≢ unrecognised word)
    → w.faults ≡ []
    → w.fs.is_dir (lock_path target).dir ≡ true
    → w.fs.names (lock_path target) ≡ none
    → host.encode (codes "utf-8") (host.dumps (document host none w.clock) ++ 10 ∷ []) ≡ some text
    → parse_lock_payload host text ≡ some doc
    → doc.pid ≡ some (pos host.pid)
    → doc.hostname ≡ some host.hostname
    → Ends
        (λ b w'.
          (b ≡ true)
          × (visible w'.fs (lock_path target) ≡ some text)
          × Ends
              (λ c u. (c ≡ true) × (u.fs.names (lock_path target) ≡ none))
              (λ e u. ⊥)
              (release_lock host target w'))
        (λ e w'. ⊥)
        (try_acquire_lock host target none (pos retries) (pos delay) safety w)
release_lock-try_acquire_lock target host text doc retries delay safety w k q d n encoded parsed p
      h =
    cycle-Free target host text w.clock encoded doc parsed p h _
      ((acquire-Mine target host text w.clock encoded retries delay safety k).at w (q, refl, d, n))
