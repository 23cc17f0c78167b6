-- ===== src/Locks/Stale.antt =====
-- When a lock counts as stale.
use safeatomic.Prelude.{
  ℕ, zero, suc, ◌≡◌, refl, ◌↔◌, ◌⊎◌, inl, inr, ℤ, pos, negsuc, ltb_ℤ, Bool, true, false, ◌&&◌, ◌||◌,
  Option, none, some, Str, ap, arith, pos_part, sym, ◌∙◌, ◌≢◌, and_true, or_true, Bool-cases,
  Option-cases,
}
use mathlib.Core.Option.{some-injective}
use safeatomic.Prelude.Eq.{==_iff, nat_eq, list_eq}
use safeatomic.Host.{Host, Signal, delivered, no_process, not_permitted, failed}
use safeatomic.Locks.Info.{LockInfo, is_dead, is_local, pid_alive_locally, signalled, age}
use safeatomic.Locks.Release.{judge_stale, dead_here, too_old}

-- The holder ran on this machine and no process has its number any more.
abbrev pub Died : Host → LockInfo → Type 0
Died host info =
    (n : ℕ) × (info.pid ≡ some (pos (suc n)))
    × (info.hostname ≡ some host.hostname)
    × (host.kill (suc n) ≡ no_process)

-- The lock has a time, and it is longer ago than the limit.
abbrev pub Expired : Option ℤ → LockInfo → ℕ → Type 0
Expired max_age info time =
    (limit : ℤ) × (years : ℤ) × (max_age ≡ some limit)
    × (age info time ≡ some years)
    × (ltb_ℤ limit years ≡ true)

no_process_of_dead : (s : Signal) → is_dead (signalled s) ≡ true → s ≡ no_process
no_process_of_dead no_process e = refl
no_process_of_dead delivered e = absurd (cc e)
no_process_of_dead not_permitted e = absurd (cc e)
no_process_of_dead failed e = absurd (cc e)

module _ (host : Host) where
  local_iff : (o : Option Str) → (is_local host o ≡ true) ↔ (o ≡ some host.hostname)
  local_iff none = (λ e. absurd (cc e), λ e. absurd (cc e))
  local_iff (some s) = (
    λ e. ap some ((==_iff s host.hostname).0 e),
    λ e. (==_iff s host.hostname).1 (some-injective _ _ e),
  )

  dead_iff :
      (p : ℤ)
      → (is_dead (pid_alive_locally host p) ≡ true)
        ↔ ((n : ℕ) × (p ≡ pos (suc n)) × (host.kill (suc n) ≡ no_process))
  unfolding pid_alive_locally
  dead_iff (negsuc n) = (λ e. absurd (cc e), λ k. absurd (cc k.1))
  dead_iff (pos zero) = (λ e. absurd (cc e), λ k. absurd (zero_pid k.0 k.1))
    where
      zero_pid : (n : ℕ) → pos 0 ≢ pos (suc n)
      zero_pid n e = omega (arith, ap pos_part e)
  dead_iff (pos (suc n)) = (λ e. (n, refl, no_process_of_dead _ e), λ k. killed k.0 k.1 k.2)
    where
      killed :
          (m : ℕ)
          → pos (suc n) ≡ pos (suc m)
          → host.kill (suc m) ≡ no_process
          → is_dead (signalled (host.kill (suc n))) ≡ true
      killed m e f = let g : suc n ≡ suc m = ap pos_part e in rw (g, f) refl

  pub Died-iff : (info : LockInfo) → (dead_here host info ≡ true) ↔ Died host info
  Died-iff info = elim (Option-cases info.pid) [
    | inl e ↦ (λ h. absurd (cc (rw e at h)), λ d. absurd (cc (d.1, e)))
    | inr (p, e) ↦ (λ h. forth p e (rw e at h), back p e)
  ]
    where
      forth :
          (p : ℤ)
          → info.pid ≡ some p
          → is_local host info.hostname && is_dead (pid_alive_locally host p) ≡ true
          → Died host info
      forth p e h =
          let (l, d) = and_true _ _ h in
          let (n, f, k) = (dead_iff p).0 d in (n, e ∙ ap some f, (local_iff info.hostname).0 l, k)

      back : (p : ℤ) → info.pid ≡ some p → Died host info → dead_here host info ≡ true
      back p e d =
          rw
            (
              e,
              (local_iff info.hostname).1 d.2,
              (dead_iff p).1 (d.0, some-injective _ _ (sym e ∙ d.1), d.3),
            )
            refl

Expired-iff :
    (max_age : Option ℤ) (info : LockInfo) (time : ℕ)
    → (too_old max_age (age info time) ≡ true) ↔ Expired max_age info time
Expired-iff none info time = (λ e. absurd (cc e), λ x. absurd (cc x.2))
Expired-iff (some limit) info time = elim (Option-cases (age info time)) [
  | inl e ↦ (λ h. absurd (cc (rw e at h)), λ x. absurd (cc (x.3, e)))
  | inr (years, e) ↦ (
    λ h. (limit, years, refl, e, rw e at h),
    λ x. let (l, y, f, g, k) = x in rw (e, some-injective _ _ f, some-injective _ _ (sym e ∙ g)) k,
  )
]

or_right : (b : Bool) → (b || true) ≡ true
or_right b = ground arith

-- A lock is judged stale exactly if its sidecar exists, is not corrupt, and either its holder ran on
-- this machine under a process number that no process has now, or it has a time longer ago than the
-- given limit. So the process number of another machine never counts.
pub judge_stale_iff :
    (host : Host) (max_age : Option ℤ) (info : LockInfo) (time : ℕ)
    → (judge_stale host max_age info time ≡ true) ↔ (
        (info.exists ≡ true)
        × (info.corrupt ≡ false)
        × (Died host info ⊎ Expired max_age info time))
unfolding judge_stale age
judge_stale_iff host max_age info time = elim (Bool-cases info.exists) [
  | inr e ↦ rw e (λ h. absurd (cc h), λ k. absurd (cc k.0))
  | inl e ↦ elim (Bool-cases info.corrupt) [
    | inl f ↦ rw (e, f) (λ h. absurd (cc h), λ k. absurd (cc k.1))
    | inr f ↦ rw (e, f) (forth, λ k. back k.2)
  ]
]
  where
    forth :
        (dead_here host info || too_old max_age (age info time)) ≡ true
        → (true ≡ true) × (false ≡ false) × (Died host info ⊎ Expired max_age info time)
    forth h = elim (or_true _ _ h) [
      | inl d ↦ (refl, refl, inl ((Died-iff host info).0 d))
      | inr x ↦ (refl, refl, inr ((Expired-iff max_age info time).0 x))
    ]

    back :
        Died host info ⊎ Expired max_age info time
        → (dead_here host info || too_old max_age (age info time)) ≡ true
    back (inl d) = rw ((Died-iff host info).1 d) refl
    back (inr x) = rw ((Expired-iff max_age info time).1 x) (or_right (dead_here host info))
