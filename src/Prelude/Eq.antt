-- ===== src/Prelude/Eq.antt =====
-- Equality tests that decide equality, one operator for every type that has them.
use Prim.Native.Nat.{ℕ}
use mathlib.Core.Path.{◌≡◌, refl}
use mathlib.Core.Logic.{◌↔◌}
use mathlib.Core.Bool.{Bool, true, false, ◌&&◌}
use mathlib.Core.List.{List, [], ◌∷◌}
use native.Mathlib.Omega.{arith}
use safeatomic.Prelude.Tests.{nat_beq, nat_beq_iff}

infix 50 ◌==◌
-- A test `same` and the law that it answers `true` for equal values and no others.
pub record Equality {ℓ} (K : Type ℓ) : Type ℓ where
  pub same : K → K → Bool
  pub decides : (x y : K) → (same x y ≡ true) ↔ (x ≡ y)

abbrev pub ◌==◌ {ℓ} : {K : Type ℓ} ⦃q : Equality K⦄ → K → K → Bool
◌==◌ ⦃q⦄ x y = q.same x y

pub ==_iff {ℓ} : {K : Type ℓ} ⦃q : Equality K⦄ (x y : K) → ((x == y) ≡ true) ↔ (x ≡ y)
==_iff ⦃q⦄ x y = q.decides x y

pub ==_refl {ℓ} : {K : Type ℓ} ⦃q : Equality K⦄ (x : K) → (x == x) ≡ true
==_refl ⦃q⦄ x = (q.decides x x).1 refl

instance abbrev pub nat_eq : Equality ℕ
nat_eq = record { same = nat_beq; decides = nat_beq_iff }

module _ {ℓ} {A : Type ℓ} ⦃q : Equality A⦄ where
  unfoldable pub list_beq : List A → List A → Bool
  list_beq [] [] = true
  list_beq (x ∷ xs) (y ∷ ys) = x == y && list_beq xs ys
  list_beq _ _ = false

  pub list_beq_iff : (xs ys : List A) → (list_beq xs ys ≡ true) ↔ (xs ≡ ys)
  unfolding list_beq
  list_beq_iff [] [] = ground arith
  list_beq_iff [] (y ∷ ys) = ground arith
  list_beq_iff (x ∷ xs) [] = ground arith
  list_beq_iff (x ∷ xs) (y ∷ ys) = ground (arith, q.decides x y, list_beq_iff xs ys)

instance abbrev pub list_eq {ℓ} : {A : Type ℓ} ⦃q : Equality A⦄ → Equality (List A)
list_eq = record { same = list_beq; decides = list_beq_iff }
