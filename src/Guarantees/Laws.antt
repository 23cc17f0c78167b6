-- ===== src/Guarantees/Laws.antt =====
-- The lists that a report is read off by: which guarantees are missing.
use safeatomic.Prelude.{
  ℕ, suc, ◌≤◌, ◌<◌, ◌≡◌, refl, ◌↔◌, ◌≢◌, inl, inr, Bool, true, not, List, [], ◌∷◌, Bool-cases,
  arith,
}
use mathlib.Core.Logic.{∥∥₁_elim}
use mathlib.Core.HLevel.{⊥_prop}
use mathlib.Core.List.{Mem, Memᴰ, Pairwise, forall_mem-cons, not-mem-nil}
use native.Mathlib.Bridge.{le_prop}
use mathlib.Core.List.Memᴰ as Memᴰ
use safeatomic.Guarantees.{
  GuaranteeLevel, guaranteed, best_effort, nontarget, unsupported, GuaranteeName, guarantee_names,
  atomic_visibility, reader_consistency, crash_durability, writer_exclusion, stale_recovery,
  integrity_detection, metadata_preservation, cross_device_safety, GuaranteeReport,
  is_level_guaranteed, is_guaranteed, select, degraded,
}

pub is_level_guaranteed_iff :
    (level : GuaranteeLevel) → (is_level_guaranteed level ≡ true) ↔ (level ≡ guaranteed)
is_level_guaranteed_iff guaranteed = (λ e. refl, λ e. refl)
is_level_guaranteed_iff best_effort = (λ e. absurd (cc e), λ e. absurd (cc e))
is_level_guaranteed_iff nontarget = (λ e. absurd (cc e), λ e. absurd (cc e))
is_level_guaranteed_iff unsupported = (λ e. absurd (cc e), λ e. absurd (cc e))

pub not_guaranteed_iff :
    (level : GuaranteeLevel) → (not (is_level_guaranteed level) ≡ true) ↔ (level ≢ guaranteed)
not_guaranteed_iff guaranteed = (λ e. absurd (cc e), λ n. absurd (n refl))
not_guaranteed_iff best_effort = (λ e. λ f. cc f, λ n. refl)
not_guaranteed_iff nontarget = (λ e. λ f. cc f, λ n. refl)
not_guaranteed_iff unsupported = (λ e. λ f. cc f, λ n. refl)

-- The canonical list has every name.
pub guarantee_names-all : (name : GuaranteeName) → Memᴰ name guarantee_names
unfolding guarantee_names
guarantee_names-all atomic_visibility = Memᴰ.head refl
guarantee_names-all reader_consistency = Memᴰ.tail (Memᴰ.head refl)
guarantee_names-all crash_durability = Memᴰ.tail (Memᴰ.tail (Memᴰ.head refl))
guarantee_names-all writer_exclusion = Memᴰ.tail (Memᴰ.tail (Memᴰ.tail (Memᴰ.head refl)))
guarantee_names-all stale_recovery = Memᴰ.tail (Memᴰ.tail (Memᴰ.tail (Memᴰ.tail (Memᴰ.head refl))))
guarantee_names-all integrity_detection =
    Memᴰ.tail (Memᴰ.tail (Memᴰ.tail (Memᴰ.tail (Memᴰ.tail (Memᴰ.head refl)))))
guarantee_names-all metadata_preservation =
    Memᴰ.tail (Memᴰ.tail (Memᴰ.tail (Memᴰ.tail (Memᴰ.tail (Memᴰ.tail (Memᴰ.head refl))))))
guarantee_names-all cross_device_safety =
    Memᴰ.tail
      (Memᴰ.tail (Memᴰ.tail (Memᴰ.tail (Memᴰ.tail (Memᴰ.tail (Memᴰ.tail (Memᴰ.head refl)))))))

module _ (p : GuaranteeName → Bool) where
  pub mem-select :
      {name : GuaranteeName} (names : List GuaranteeName)
      → Memᴰ name names
      → p name ≡ true
      → Memᴰ name (select p names)
  mem-select (x ∷ names) m h = elim (Memᴰ.cases_cons m) [
    | inl e ↦ let f : p x ≡ true = rw (← e) h in rw f (Memᴰ.head e)
    | inr k ↦ elim (Bool-cases (p x)) [
      | inl f ↦ rw f (Memᴰ.tail (mem-select names k h))
      | inr f ↦ rw f (mem-select names k h)
    ]
  ]
  mem-select [] m h = absurd (Memᴰ.not-nil m)

  pub select_only :
      {name : GuaranteeName} (names : List GuaranteeName)
      → Memᴰ name (select p names)
      → p name ≡ true
  select_only [] m = absurd (Memᴰ.not-nil m)
  select_only {name} (x ∷ names) m = elim (Bool-cases (p x)) [
    | inl f ↦ elim (Memᴰ.cases_cons (rw f at m)) [ inl e ↦ rw e f | inr k ↦ select_only names k ]
    | inr f ↦ select_only names (rw f at m)
  ]

-- The place of a name in the order that is documented.
pub rank : GuaranteeName → ℕ
rank atomic_visibility = 0
rank reader_consistency = 1
rank crash_durability = 2
rank writer_exclusion = 3
rank stale_recovery = 4
rank integrity_detection = 5
rank metadata_preservation = 6
rank cross_device_safety = 7

-- Each name is behind all that stand before it.
abbrev pub InOrder : List GuaranteeName → Type 0
InOrder = Pairwise (λ x y. rank x < rank y)

abbrev Ascending : ℕ → List GuaranteeName → Type 0
Ascending n [] = Unit {0}
Ascending n (x ∷ names) = (n ≤ rank x) × Ascending (suc (rank x)) names

Ascending-le :
    (m n : ℕ) (names : List GuaranteeName) → m ≤ n → Ascending n names → Ascending m names
Ascending-le m n [] l h = tt
Ascending-le m n (x ∷ names) l h = (omega (arith, l, h.0), h.1)

Ascending-select :
    (p : GuaranteeName → Bool) (n : ℕ) (names : List GuaranteeName)
    → Ascending n names
    → Ascending n (select p names)
Ascending-select p n [] h = tt
Ascending-select p n (x ∷ names) h = elim (Bool-cases (p x)) [
  | inl e ↦ rw e (h.0, Ascending-select p (suc (rank x)) names h.1)
  | inr e ↦ rw e (
      Ascending-le n (suc (rank x)) (select p names) (omega (arith, h.0))
        (Ascending-select p (suc (rank x)) names h.1))
]

InOrder-of_Ascending :
    (n : ℕ) (names : List GuaranteeName)
    → Ascending n names
    → InOrder names × ((x : GuaranteeName) → Mem x names → n ≤ rank x)
InOrder-of_Ascending n [] h = (Pairwise.nil, λ x m. absurd (not-mem-nil m))
InOrder-of_Ascending n (x ∷ names) h =
    let (o, above) = InOrder-of_Ascending (suc (rank x)) names h.1 in
    (
      Pairwise.cons (λ y m. omega (arith, above y m)) o,
      (forall_mem-cons (λ y. le_prop)).1 (h.0, λ y m. omega (arith, above y m, h.0)),
    )

names-Ascending : Ascending 0 guarantee_names
unfolding guarantee_names rank
names-Ascending = ground arith

-- The degraded list of a report has the names whose level is not "guaranteed", each once and in the
-- documented order.
pub degraded_iff :
    (report : GuaranteeReport)
    → ((name : GuaranteeName) → Mem name (degraded report) ↔ (report.guarantees name ≢ guaranteed))
      × InOrder (degraded report)
unfolding degraded is_guaranteed
degraded_iff report = (
  λ name. (missing name, listed name),
  (InOrder-of_Ascending 0 (degraded report) (
      Ascending-select (λ n. not (is_level_guaranteed (report.guarantees n))) 0 guarantee_names
        names-Ascending)).0,
)
  where
    missing :
        (name : GuaranteeName) → Mem name (degraded report) → report.guarantees name ≢ guaranteed
    missing name m e = ∥∥₁_elim m ⊥_prop (λ d.
        (not_guaranteed_iff (report.guarantees name)).0
          (select_only (λ n. not (is_level_guaranteed (report.guarantees n))) guarantee_names d) e)

    listed :
        (name : GuaranteeName) → report.guarantees name ≢ guaranteed → Mem name (degraded report)
    listed name ne =
        ∣ mem-select (λ n. not (is_level_guaranteed (report.guarantees n))) guarantee_names
          (guarantee_names-all name) ((not_guaranteed_iff (report.guarantees name)).1 ne) ∣₁
