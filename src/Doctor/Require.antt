-- ===== src/Doctor/Require.antt =====
-- When a report counts as "ok".
use safeatomic.Prelude.{
  ◌≡◌, ◌≢◌, refl, sym, ap, ◌∙◌, ◌↔◌, ◌⊎◌, inl, inr, Bool, true, false, ◌&&◌, Option, none, some,
  List, [], ◌∷◌, Str, All, Bool-cases,
}
use mathlib.Core.Option.{some-injective}
use safeatomic.Prelude.Eq.{◌==◌, ==_iff, nat_eq, list_eq, list_beq}
use safeatomic.Guarantees.{
  GuaranteeLevel, guaranteed, best_effort, nontarget, unsupported, GuaranteeName, atomic_visibility,
  reader_consistency, crash_durability, writer_exclusion, stale_recovery, integrity_detection,
  metadata_preservation, cross_device_safety, guarantee_names, GuaranteeReport, is_level_guaranteed,
}
use safeatomic.Doctor.Report.{
  DoctorStatus, passed, warned, failed, unknown, DoctorCheck, formal_name, check_name, find_by,
  or_else, formal_of, is_failed, any_failed, is_met, all_met, met_if_any, evaluate_require,
}

-- `name` is the formal name of `g` or its check name.
abbrev pub Names : Str → GuaranteeName → Type 0
Names name g = (formal_name g ≡ name) ⊎ (check_name g ≡ name)

-- `name` stands for a guarantee, and the report has it at "guaranteed".
abbrev pub IsMet : GuaranteeReport → Str → Type 0
IsMet report name = (g : GuaranteeName) × Names name g × (report.guarantees g ≡ guaranteed)

abbrev pub NotFailed : DoctorCheck → Type 0
NotFailed c = c.status ≢ failed

formal_of-formal_name : (g : GuaranteeName) → formal_of (formal_name g) ≡ some g
unfolding formal_of list_beq
formal_of-formal_name atomic_visibility = refl
formal_of-formal_name reader_consistency = refl
formal_of-formal_name crash_durability = refl
formal_of-formal_name writer_exclusion = refl
formal_of-formal_name stale_recovery = refl
formal_of-formal_name integrity_detection = refl
formal_of-formal_name metadata_preservation = refl
formal_of-formal_name cross_device_safety = refl

formal_of-check_name : (g : GuaranteeName) → formal_of (check_name g) ≡ some g
unfolding formal_of list_beq
formal_of-check_name atomic_visibility = refl
formal_of-check_name reader_consistency = refl
formal_of-check_name crash_durability = refl
formal_of-check_name writer_exclusion = refl
formal_of-check_name stale_recovery = refl
formal_of-check_name integrity_detection = refl
formal_of-check_name metadata_preservation = refl
formal_of-check_name cross_device_safety = refl

formal_of-Names : (name : Str) (g : GuaranteeName) → Names name g → formal_of name ≡ some g
formal_of-Names name g (inl e) = rw (← e) (formal_of-formal_name g)
formal_of-Names name g (inr e) = rw (← e) (formal_of-check_name g)

find_by_sound :
    (spelling : GuaranteeName → Str) (name : Str) (gs : List GuaranteeName) (g : GuaranteeName)
    → find_by spelling name gs ≡ some g
    → spelling g ≡ name
find_by_sound spelling name [] g e = absurd (cc e)
find_by_sound spelling name (h ∷ gs) g e = elim (Bool-cases (spelling h == name)) [
  | inl f ↦ ap spelling (sym (some-injective _ _ (rw f at e))) ∙ (==_iff (spelling h) name).0 f
  | inr f ↦ find_by_sound spelling name gs g (rw f at e)
]

or_else-cases :
    (a b : Option GuaranteeName) (g : GuaranteeName)
    → or_else a b ≡ some g
    → (a ≡ some g) ⊎ (b ≡ some g)
or_else-cases (some h) b g e = inl e
or_else-cases none b g e = inr e

Names-formal_of : (name : Str) (g : GuaranteeName) → formal_of name ≡ some g → Names name g
unfolding formal_of
Names-formal_of name g e =
    elim (or_else-cases (find_by formal_name name guarantee_names)
      (find_by check_name name guarantee_names) g e) [
        | inl f ↦ inl (find_by_sound formal_name name guarantee_names g f)
        | inr f ↦ inr (find_by_sound check_name name guarantee_names g f)
      ]

level_iff : (l : GuaranteeLevel) → (is_level_guaranteed l ≡ true) ↔ (l ≡ guaranteed)
level_iff guaranteed = (λ e. refl, λ e. refl)
level_iff best_effort = (λ e. cc, λ e. cc)
level_iff nontarget = (λ e. cc, λ e. cc)
level_iff unsupported = (λ e. cc, λ e. cc)

is_met-IsMet :
    (report : GuaranteeReport) (name : Str) (o : Option GuaranteeName)
    → formal_of name ≡ o
    → (is_met report o ≡ true) ↔ IsMet report name
is_met-IsMet report name none f =
    (λ e. absurd (cc e), λ m. absurd (cc (formal_of-Names name m.0 m.1, f)))
is_met-IsMet report name (some g) f = (
  λ e. (g, Names-formal_of name g f, (level_iff (report.guarantees g)).0 e),
  λ m.
      (level_iff (report.guarantees g)).1
        (ap report.guarantees (some-injective _ _ (sym f ∙ formal_of-Names name m.0 m.1)) ∙ m.2),
)

&&-iff : (a b : Bool) → ((a && b) ≡ true) ↔ ((a ≡ true) × (b ≡ true))
&&-iff true b = (λ e. (refl, e), λ h. h.1)
&&-iff false b = (λ e. absurd (cc e), λ h. h.0)

all_met-IsMet :
    (require : List Str) (report : GuaranteeReport)
    → (all_met require report ≡ true) ↔ All (IsMet report) require
unfolding all_met
all_met-IsMet [] report = (λ e. tt, λ h. refl)
all_met-IsMet (name ∷ require) report =
    let s = &&-iff (is_met report (formal_of name)) (all_met require report) in
    let m = is_met-IsMet report name (formal_of name) refl in
    let ms = all_met-IsMet require report in
    (λ e. (m.0 (s.0 e).0, ms.0 (s.0 e).1), λ h. s.1 (m.1 h.0, ms.1 h.1))

abbrev pub RequiredOf : Option (List Str) → GuaranteeReport → Type 0
RequiredOf none report = Unit
RequiredOf (some require) report = All (IsMet report) require

met_if_any-RequiredOf :
    (require : Option (List Str)) (report : GuaranteeReport)
    → (met_if_any require report ≡ true) ↔ RequiredOf require report
met_if_any-RequiredOf none report = (λ e. tt, λ h. refl)
met_if_any-RequiredOf (some require) report = all_met-IsMet require report

status_iff : (s : DoctorStatus) → (is_failed s ≡ false) ↔ (s ≢ failed)
status_iff failed = (λ e. absurd (cc e), λ n. absurd (n refl))
status_iff passed = (λ e f. cc, λ n. refl)
status_iff warned = (λ e f. cc, λ n. refl)
status_iff unknown = (λ e f. cc, λ n. refl)

any_failed-NotFailed :
    (checks : List DoctorCheck) → (any_failed checks ≡ false) ↔ All NotFailed checks
unfolding any_failed
any_failed-NotFailed [] = (λ e. tt, λ h. refl)
any_failed-NotFailed (c ∷ checks) = elim (Bool-cases (is_failed c.status)) [
  | inl f ↦ (λ e. absurd (cc (rw f at e)), λ h. absurd (cc ((status_iff c.status).1 h.0, f)))
  | inr f ↦
      let ih = any_failed-NotFailed checks in
      (λ e. ((status_iff c.status).0 f, ih.0 (rw f at e)), λ h. rw f (ih.1 h.1))
]

-- A report is ok exactly when none of its checks failed and, where guarantees are required, each
-- name that is required is a guarantee's formal name or its check name and the report has that
-- guarantee at "guaranteed". A check that is "warn" or "unknown" does not stand in the way.
pub evaluate_require_iff :
    (require : Option (List Str)) (report : GuaranteeReport) (checks : List DoctorCheck)
    → (evaluate_require require report checks ≡ true)
      ↔ (All NotFailed checks × RequiredOf require report)
unfolding evaluate_require
evaluate_require_iff require report checks = elim (Bool-cases (any_failed checks)) [
  | inl f ↦
      (λ e. absurd (cc (rw f at e)), λ h. absurd (cc ((any_failed-NotFailed checks).1 h.0, f)))
  | inr f ↦ (
    λ e. ((any_failed-NotFailed checks).0 f, (met_if_any-RequiredOf require report).0 (rw f at e)),
    λ h. rw f ((met_if_any-RequiredOf require report).1 h.1),
  )
]
