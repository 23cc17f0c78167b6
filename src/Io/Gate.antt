-- ===== src/Io/Gate.antt =====
-- `_check_safety` under each policy.
pub mod Classes
use safeatomic.Prelude.{
  ◌+◌, ◌≡◌, refl, ◌≢◌, ◌⊎◌, inl, inr, Bool, true, not, ◌&&◌, List, [], ◌∷◌, Bool-cases, arith,
}
use mathlib.Core.List.{Memᴰ}
use mathlib.Core.List.Memᴰ as Memᴰ
use safeatomic.Constants.{SafetyPolicy, strict, warn, best_effort, unrecognised}
use safeatomic.Sys.Errors.{unsupported_environment_error}
use safeatomic.Sys.Fs.{Dir}
use safeatomic.Sys.World.{World}
use safeatomic.Sys.Exec.{Result, ok, raised, pure, raise, proceed, warn_unsupported, modify, ◌>>=◌}
use safeatomic.Sys.Logic.Ends.{Ends}
use safeatomic.Host.{Host}
use safeatomic.Guarantees.{
  guaranteed, GuaranteeName, guarantee_names, GuaranteeReport, is_level_guaranteed, select,
  inspect_guarantees,
}
use safeatomic.Guarantees.Laws.{
  is_level_guaranteed_iff, not_guaranteed_iff, guarantee_names-all, mem-select, select_only,
}
use safeatomic.Io.Safety.{Required, failed_guarantees, decide, check_against, check_safety}

-- Every required guarantee is given.
abbrev pub Met : Required → GuaranteeReport → Type 0
Met required report =
    (name : GuaranteeName) → required name ≡ true → report.guarantees name ≡ guaranteed

-- Some required guarantee is not given.
abbrev pub Unmet : Required → GuaranteeReport → Type 0
Unmet required report =
    (name : GuaranteeName) × (required name ≡ true) × (report.guarantees name ≢ guaranteed)

abbrev pub Outcome : Type 0
Outcome = Result (Unit {0}) × World

-- What the gate does with a report that was made in the world `w`.
abbrev pub Verdict : SafetyPolicy → Required → GuaranteeReport → World → Outcome → Type 0
Verdict warn required report w x =
    (Met required report × (x ≡ (ok tt, w)))
    ⊎ (Unmet required report × (x ≡ (ok tt, record w { warned = w.warned + 1 })))
Verdict _ required report w x =
    (Met required report × (x ≡ (ok tt, w)))
    ⊎ (Unmet required report × (x ≡ (raised unsupported_environment_error, w)))

abbrev missing : Required → GuaranteeReport → GuaranteeName → Bool
missing required report name = required name && not (is_level_guaranteed (report.guarantees name))

Met-of_nil :
    (required : Required) (report : GuaranteeReport)
    → select (missing required report) guarantee_names ≡ []
    → Met required report
Met-of_nil required report e name h =
    elim (Bool-cases (is_level_guaranteed (report.guarantees name))) [
      | inl f ↦ (is_level_guaranteed_iff _).0 f
      | inr f ↦ absurd (
          Memᴰ.not-nil (
            rw e at (
              mem-select (missing required report) guarantee_names (guarantee_names-all name)
                (rw (h, f) refl))))
    ]

Unmet-of_mem :
    (required : Required) (report : GuaranteeReport) (name : GuaranteeName)
    → Memᴰ name (select (missing required report) guarantee_names)
    → Unmet required report
Unmet-of_mem required report name m =
    let e = select_only (missing required report) guarantee_names m in
    (name, both (required name) _ e, (not_guaranteed_iff _).0 (both_right (required name) _ e))
  where
    both : (a b : Bool) → (a && b) ≡ true → a ≡ true
    both a b h = ground arith

    both_right : (a b : Bool) → (a && b) ≡ true → b ≡ true
    both_right a b h = ground arith

decide-Verdict :
    (safety : SafetyPolicy) (required : Required) (report : GuaranteeReport) (w : World)
    (failed : List GuaranteeName)
    → failed_guarantees report required ≡ failed
    → Verdict safety required report w (decide safety failed w)
unfolding decide failed_guarantees pure raise warn_unsupported modify
decide-Verdict strict required report w [] e = inl (Met-of_nil required report e, refl)
decide-Verdict warn required report w [] e = inl (Met-of_nil required report e, refl)
decide-Verdict best_effort required report w [] e = inl (Met-of_nil required report e, refl)
decide-Verdict (unrecognised s) required report w [] e = inl (Met-of_nil required report e, refl)
decide-Verdict warn required report w (x ∷ xs) e =
    inr (Unmet-of_mem required report x (rw e (Memᴰ.head refl)), refl)
decide-Verdict strict required report w (x ∷ xs) e =
    inr (Unmet-of_mem required report x (rw e (Memᴰ.head refl)), refl)
decide-Verdict best_effort required report w (x ∷ xs) e =
    inr (Unmet-of_mem required report x (rw e (Memᴰ.head refl)), refl)
decide-Verdict (unrecognised s) required report w (x ∷ xs) e =
    inr (Unmet-of_mem required report x (rw e (Memᴰ.head refl)), refl)

-- What the gate makes of an inspection that ends in `x`.
after_inspection :
    (safety : SafetyPolicy) (required : Required) (x : Result GuaranteeReport × World)
    → Ends
        (λ report w.
          Verdict safety required report w
            (proceed x.0 (λ rep. decide safety (failed_guarantees rep required)) x.1))
        (λ e w.
          proceed x.0 (λ rep. decide safety (failed_guarantees rep required)) x.1 ≡ (raised e, w))
        x
after_inspection safety required (ok report, w) = decide-Verdict safety required report w _ refl
after_inspection safety required (raised e, w) = refl

-- Let the policy be any but "best_effort". If the inspection raises, the gate raises the same error.
-- If it returns a report, then either the report gives every required guarantee and the gate returns,
-- or it lacks one, and the gate issues one warning and returns under "warn", and raises
-- `UnsupportedEnvironmentError` otherwise; nothing else of the world that the inspection left changes.
pub check_safety-Verdict :
    (host : Host) (p : Dir) (required : Required) (safety : SafetyPolicy) (w : World)
    → safety ≢ best_effort
    → Ends
        (λ report w'. Verdict safety required report w' (check_safety host p required safety w))
        (λ e w'. check_safety host p required safety w ≡ (raised e, w'))
        (inspect_guarantees host p w)
unfolding check_safety check_against ◌>>=◌
check_safety-Verdict host p required strict w ne = after_inspection strict required _
check_safety-Verdict host p required warn w ne = after_inspection warn required _
check_safety-Verdict host p required best_effort w ne = absurd (ne refl)
check_safety-Verdict host p required (unrecognised s) w ne =
    after_inspection (unrecognised s) required _
