-- ===== src/Locks/Waiting.antt =====
-- How long `try_acquire_lock` waits.
use safeatomic.Prelude.{
  ℕ, zero, suc, ◌+◌, ◌*◌, ◌≤◌, ◌≡◌, ◌⊎◌, refl, ◌∙◌, inl, inr, pos, Bool, true, false, ◌&&◌, Option,
  List, [], ◌∷◌, Bytes, Str, Bool-cases, ltb, arith, if◌then◌else◌,
}
use safeatomic.Constants.{SafetyPolicy}
use safeatomic.Sys.Errors.{is_os_error}
use safeatomic.Sys.Fs.{FilePath, Fs}
use safeatomic.Sys.World.{World}
use safeatomic.Sys.Exec.{Exec, pure, modify, ◌>>◌}
use safeatomic.Sys.Calls.{sleep, others_work}
use safeatomic.Sys.Logic.Keeps.{
  Keeps, Keeps-bind, Keeps-if, Keeps-try_except, Keeps-finally, Keeps-pure, Keeps-raise,
  Keeps-suppress_os,
}
use safeatomic.Sys.Logic.Ends.{
  Ends, Triple, Triple-bind, Triple-pure, Triple-of_Keeps, Triple-weaken,
}
use safeatomic.Sys.Logic.Clock.{
  Clock, open_excl-Clock, write-Clock, close-Clock, unlink-Clock, now-Clock,
}
use safeatomic.Host.{Host}
use safeatomic.Paths.{lock_path}
use safeatomic.Locks.Frame.{
  build_payload-Keeps, session_to_hash-Keeps, validate_safety-Keeps, open_failed-Keeps,
}
use safeatomic.Locks.Acquire.{
  Opened, contended, opened, open_lock, fill_lock, acquire_loop, acquire_checked, try_acquire_lock,
}

others_work-clock : (fs : List (Fs → Fs)) (w : World) → (others_work fs w).clock ≡ w.clock
others_work-clock [] w = refl
others_work-clock (f ∷ fs) w = refl

module _ (t : ℕ) (lf : FilePath) where
  open_lock-Clock : Keeps (Clock t) (open_lock lf)
  unfolding open_lock
  open_lock-Clock =
      Keeps-try_except _ _ (Keeps-bind _ _ (open_excl-Clock t lf) (λ fd. Keeps-pure _))
        open_failed-Keeps

  fill_lock-Clock : (fd : ℕ) (payload : Bytes) → Keeps (Clock t) (fill_lock lf fd payload)
  unfolding fill_lock
  fill_lock-Clock fd payload =
      Keeps-try_except _ _
        (Keeps-finally _ _ (Keeps-bind _ _ (write-Clock t fd payload) (λ n. Keeps-pure _))
          (close-Clock t fd))
        (λ e.
          Keeps-if (is_os_error e) _ _
            (Keeps-bind _ _ (Keeps-suppress_os _ (unlink-Clock t lf)) (λ u. Keeps-raise _))
            (Keeps-raise _))

-- No more than `pauses` of them since `t`.
abbrev Waited : ℕ → ℕ → ℕ → World → Type 0
Waited t pauses delay w = (t ≤ w.clock) × (w.clock ≤ t + pauses * delay)

abbrev Tried : ℕ → ℕ → ℕ → Bool → World → Type 0
Tried t pauses delay taken w =
    Waited t pauses delay w × ((taken ≡ true) ⊎ (w.clock ≡ t + pauses * delay))

module _ (delay : ℕ) where
  at_once : (t k : ℕ) (w : World) → Clock t w → Waited t k delay w
  at_once t k w h = (grind arith, grind arith)

  still :
      {A : Type 0} (t k : ℕ) (m : Exec A)
      → Keeps (Clock t) m
      → Triple (Clock t) m (λ a. Clock t) (λ e. Waited t k delay)
  still t k m h = Triple-weaken m (Triple-of_Keeps m h) (λ a w c. c) (λ e. at_once t k)

  sleep-Clock :
      (t k : ℕ) → Triple (Clock t) (sleep delay) (λ u. Clock (t + delay)) (λ e. Waited t k delay)
  unfolding sleep modify
  sleep-Clock t k = record {
    at = λ w h. rw (others_work-clock w.others (record w { clock = w.clock + delay }), h) refl;
  }

  pause :
      (t k : ℕ)
      → Triple
          (Clock t)
          (if (ltb 0 (suc k) && ltb 0 delay) then sleep delay else pure tt)
          (λ u. Clock (t + delay))
          (λ e. Waited t (suc k) delay)
  pause t k = elim (Bool-cases (ltb 0 (suc k) && ltb 0 delay)) [
    | inl e ↦ rw e (sleep-Clock t (suc k))
    | inr e ↦ rw e (Triple-pure tt (λ w h. h ∙ grind arith))
  ]

  one_more : (t k : ℕ) → t + suc k * delay ≡ (t + delay) + k * delay
  one_more t k = grind arith

  later_Waited : (t k : ℕ) (w : World) → Waited (t + delay) k delay w → Waited t (suc k) delay w
  later_Waited t k w x = rw (one_more t k) (omega (arith, x.0), x.1)

  -- The attempts that are left, after a first pause.
  after_pause :
      (t k : ℕ) (m : Exec Bool)
      → Triple (Clock (t + delay)) m (Tried (t + delay) k delay) (λ e. Waited (t + delay) k delay)
      → Triple (Clock (t + delay)) m (Tried t (suc k) delay) (λ e. Waited t (suc k) delay)
  after_pause t k m h =
      Triple-weaken m h (λ b w x. (later_Waited t k w x.0, rw (one_more t k) x.1))
        (λ e. later_Waited t k)

  module _ (host : Host) (lf : FilePath) (session_hash : Option Str) where
    abbrev Attempts : ℕ → ℕ → Exec Bool → Type 0
    Attempts t k m = Triple (Clock t) m (Tried t k delay) (λ e. Waited t k delay)

    abbrev contended_pause : ℕ → Exec (Unit {0})
    contended_pause n = if (ltb 0 n && ltb 0 delay) then sleep delay else pure tt

    -- One attempt, and what follows where it is contended.
    one_attempt :
        (t k n : ℕ)
        → Attempts t k (contended_pause n >> acquire_loop host n lf session_hash delay)
        → Attempts t k (acquire_loop host (suc n) lf session_hash delay)
    unfolding acquire_loop
    one_attempt t k n h = Triple-bind _ _ (still t k _ (now-Clock t)) (λ stamp.
        Triple-bind _ _ (still t k _ (build_payload-Keeps host session_hash stamp))
          (λ payload. Triple-bind _ _ (still t k _ (open_lock-Clock t lf)) (go payload)))
      where
        go :
            (payload : Bytes) (result : Opened)
            → Attempts t k (elim result [
              | contended ↦ (do
                if (ltb 0 n && ltb 0 delay) then sleep delay else pure tt
                acquire_loop host n lf session_hash delay)
              | opened fd ↦ (do fill_lock lf fd payload; pure true)
            ])
        go payload contended = h
        go payload (opened fd) =
            Triple-bind _ _ (still t k _ (fill_lock-Clock t lf fd payload))
              (λ u. Triple-pure true (λ w c. (at_once t k w c, inl refl)))

    acquire_loop-Attempts :
        (k t : ℕ) → Attempts t k (acquire_loop host (suc k) lf session_hash delay)
    unfolding acquire_loop
    acquire_loop-Attempts zero t = one_attempt t 0 0 (
        Triple-bind {Q = λ u. Clock t} _ _ (Triple-pure tt (λ w h. h))
          (λ u. Triple-pure false (λ w h. (at_once t 0 w h, inr (h ∙ grind arith)))))
    acquire_loop-Attempts (suc k) t =
        one_attempt t (suc k) (suc k) (
          Triple-bind _ _ (pause t k)
            (λ u. after_pause t k _ (acquire_loop-Attempts k (t + delay))))

  checked-Attempts :
      (host : Host) (target : FilePath) (session : Option Str) (retries t : ℕ)
      → Triple
          (Clock t)
          (acquire_checked host target session (pos retries) (pos delay))
          (Tried t retries delay)
          (λ e. Waited t retries delay)
  checked-Attempts host target session retries t =
      Triple-bind _ _ (still t retries _ (session_to_hash-Keeps host session)) (λ h. record {
        at = λ w c.
            rw (plus_one retries)
              ((acquire_loop-Attempts host (lock_path target) h retries t).at w c);
      })
    where
      plus_one : (n : ℕ) → n + 1 ≡ suc n
      plus_one n = omega arith

-- From any world and whichever calls fail, `try_acquire_lock` with `retries` and `delay` not negative
-- takes at most `retries` times `delay`, whether it returns or raises, where no call but the pauses
-- takes time; and it returns `False` only after it has waited exactly that long.
pub try_acquire_lock-Waited :
    (host : Host) (target : FilePath) (session : Option Str) (retries delay : ℕ)
    (safety : SafetyPolicy) (w : World)
    → Ends
        (λ taken w'.
          ((w.clock ≤ w'.clock) × (w'.clock ≤ w.clock + retries * delay))
          × ((taken ≡ true) ⊎ (w'.clock ≡ w.clock + retries * delay)))
        (λ e w'. (w.clock ≤ w'.clock) × (w'.clock ≤ w.clock + retries * delay))
        (try_acquire_lock host target session (pos retries) (pos delay) safety w)
unfolding try_acquire_lock
try_acquire_lock-Waited host target session retries delay safety w =
    (Triple-bind _ _ (still delay w.clock retries _ (validate_safety-Keeps safety))
        (λ u. checked-Attempts delay host target session retries w.clock)).at
      w refl
