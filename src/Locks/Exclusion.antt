-- ===== src/Locks/Exclusion.antt =====
-- Attempts at a lock whose sidecar stands.
use safeatomic.Prelude.{
  ℕ, zero, suc, ◌+◌, ◌&&◌, ltb, ◌≡◌, refl, inl, inr, ℤ, pos, negsuc, Bool, true, false, Option,
  none, some, Bytes, Str, Bool-cases, if◌then◌else◌,
}
use safeatomic.Constants.{SafetyPolicy}
use safeatomic.Sys.Errors.{Exception, os_error, eexist}
use safeatomic.Sys.Fs.{FilePath, text_at}
use safeatomic.Sys.World.{World}
use safeatomic.Sys.Exec.{pure, ◌>>◌}
use safeatomic.Sys.Calls.{create_excl, open_excl, sleep}
use safeatomic.Sys.Logic.Keeps.{Keeps-if, Keeps-pure}
use safeatomic.Sys.Logic.Ends.{
  Triple, Triple-bind, Triple-pure, Triple-raise, Triple-try_except, Triple-of_Keeps,
}
use safeatomic.Sys.Logic.Move.{later, ReplyTo, Triple-call}
use safeatomic.Sys.Files.Holds.{Range, Holds}
use safeatomic.Sys.Files.Frame.{Keeps-now}
use safeatomic.Sys.Files.Creation.{Keeps-sleep}
use safeatomic.Host.{Host}
use safeatomic.Paths.{lock_path}
use safeatomic.Locks.Frame.{build_payload-Keeps, session_to_hash-Keeps, validate_safety-Keeps}
use safeatomic.Locks.Acquire.{
  Opened, contended, opened, open_failed, open_lock, fill_lock, acquire_loop, acquire_checked,
  try_acquire_lock,
}

-- The file stands with this text, all through.
abbrev pub Standing : FilePath → Bytes → World → Type 0
Standing p text = Holds p (some text) (some text) (some text) (some text) (some text)

abbrev pub standing :
    (text : Bytes) → Range (some text) (some text) (some text) (some text) (some text)
standing text = record { older = inl refl; other = inl refl; current = inl refl; within = inl refl }

pub named_of_text :
    (o : Option ℕ) (body : ℕ → Bytes) (text : Bytes)
    → text_at body o ≡ some text
    → (i : ℕ) × (o ≡ some i)
named_of_text none body text e = absurd (cc)
named_of_text (some i) body text e = (i, refl)

pub later-Standing :
    (p : FilePath) (text : Bytes) (w : World) → Standing p text w → Standing p text (later w)
later-Standing p text w h = record {
  settled = h.settled;
  clear = h.clear;
  held = h.held;
  past = h.past;
  calm = h.calm;
}

module _ (lf : FilePath) (payload : Bytes) where
  abbrev Contended : Opened → World → Type 0
  Contended o w = Standing lf payload w × (o ≡ contended)

  refused_by : (w : World) → Standing lf payload w → ReplyTo (λ i w'. ⊥) w (create_excl lf w.fs)
  unfolding create_excl
  refused_by w h = elim (Bool-cases (w.fs.is_dir lf.dir)) [
    | inr e ↦ rw (e, create_excl, ReplyTo) tt
    | inl e ↦
        let (i, f) = named_of_text (w.fs.names lf) w.fs.body payload h.settled.seen in
        rw (e, f, create_excl, ReplyTo) tt
  ]

  open_failed-Contended :
      (e : Exception)
      → Triple (Standing lf payload) (open_failed e) Contended (λ x. Standing lf payload)
  open_failed-Contended (os_error eexist) = Triple-pure _ (λ w h. (h, refl))
  open_failed-Contended (os_error x) = Triple-raise _ (λ w h. h)
  open_failed-Contended x = Triple-raise _ (λ w h. h)

  open_lock-Contended :
      Triple (Standing lf payload) (open_lock lf) Contended (λ e. Standing lf payload)
  unfolding open_lock open_excl
  open_lock-Contended =
      Triple-try_except _ _
        (Triple-bind _ _
          (Triple-bind _ _
            (Triple-call (Standing lf payload) (λ i w'. ⊥) (create_excl lf)
              (later-Standing lf payload) refused_by)
            (λ i. record { at = λ w h. absurd h }))
          (λ fd. record { at = λ w h. absurd h }))
        open_failed-Contended

  module _ (host : Host) where
    abbrev Denied : Bool → World → Type 0
    Denied b w = Standing lf payload w × (b ≡ false)

    acquire_loop-Denied :
        (attempts : ℕ) (session_hash : Option Str) (delay : ℕ)
        → Triple
            (Standing lf payload)
            (acquire_loop host attempts lf session_hash delay)
            Denied
            (λ e. Standing lf payload)
    unfolding acquire_loop
    acquire_loop-Denied zero session_hash delay = Triple-pure _ (λ w h. (h, refl))
    acquire_loop-Denied (suc attempts) session_hash delay =
        Triple-bind _ _ (Triple-of_Keeps _ (Keeps-now (standing payload))) (λ t.
          Triple-bind _ _ (Triple-of_Keeps _ (build_payload-Keeps host session_hash t)) (λ text.
            Triple-bind _ _ open_lock-Contended
              (go text (acquire_loop-Denied attempts session_hash delay))))
      where
        go :
            (text : Bytes)
            → Triple
                (Standing lf payload)
                (acquire_loop host attempts lf session_hash delay)
                Denied
                (λ e. Standing lf payload)
            → (result : Opened)
            → Triple
                (Contended result)
                (elim result [
                  | contended ↦ (do
                    if (ltb 0 attempts && ltb 0 delay) then sleep delay else pure tt
                    acquire_loop host attempts lf session_hash delay)
                  | opened fd ↦ (do fill_lock lf fd text; pure true)
                ])
                Denied
                (λ e. Standing lf payload)
        go text ih contended = record {
          at = λ w h.
              (Triple-bind _ _
                  (Triple-of_Keeps _
                    (Keeps-if _ _ _ (Keeps-sleep (standing payload) delay) (Keeps-pure tt)))
                  (λ u. ih)).at
                w h.0;
        }
        go text ih (opened fd) = record { at = λ w h. absurd (cc h.1) }

module _ (target : FilePath) (payload : Bytes) (host : Host) where
  checked-Denied :
      (session : Option Str) (retries delay : ℤ)
      → Triple
          (Standing (lock_path target) payload)
          (acquire_checked host target session retries delay)
          (λ b w. Standing (lock_path target) payload w × (b ≡ false))
          (λ e. Standing (lock_path target) payload)
  checked-Denied session (negsuc x) delay = Triple-raise _ (λ w h. h)
  checked-Denied session (pos x) (negsuc y) = Triple-raise _ (λ w h. h)
  checked-Denied session (pos x) (pos y) =
      Triple-bind _ _ (Triple-of_Keeps _ (session_to_hash-Keeps host session))
        (λ h. acquire_loop-Denied (lock_path target) payload host (x + 1) h y)

  -- While the sidecar stands, no attempt succeeds, and the sidecar stays as it is.
  pub try_acquire_lock-Denied :
      (session : Option Str) (retries delay : ℤ) (safety : SafetyPolicy)
      → Triple
          (Standing (lock_path target) payload)
          (try_acquire_lock host target session retries delay safety)
          (λ b w. Standing (lock_path target) payload w × (b ≡ false))
          (λ e. Standing (lock_path target) payload)
  unfolding try_acquire_lock
  try_acquire_lock-Denied session retries delay safety =
      Triple-bind _ _ (Triple-of_Keeps _ (validate_safety-Keeps safety))
        (λ u. checked-Denied session retries delay)
