-- ===== src/Prelude/Keys.antt =====
-- Keys of maps and tables: types with a Boolean equality that decides equality.
use Prim.Native.Nat.{ℕ}
use Prim.Native.String.{String}
use mathlib.Core.Path.{◌≡◌, refl, ap}
use native.Mathlib.Omega.{arith}
use mathlib.Core.Logic.{◌↔◌}
use mathlib.Core.Bool.{Bool, true, false, ◌&&◌}
use mathlib.Core.List.{List, [], ◌∷◌}
use text.Mathlib.Text.{◌==◌ as str_eq}
use text.Mathlib.TextEquality.{eq_iff}
use loomwatch.Prelude.Tests.{nat_beq, nat_beq_iff}

pub record Key {ℓ} (A : Type ℓ) : Type ℓ where
  pub matches : A → A → Bool
  pub matches_iff : (a b : A) → (matches a b ≡ true) ↔ (a ≡ b)

instance abbrev pub string_eq : Key String
string_eq = record { matches = str_eq; matches_iff = eq_iff }

instance abbrev pub nat_eq : Key ℕ
nat_eq = record { matches_iff = nat_beq_iff; matches = nat_beq }

module _ {ℓ} {A : Type ℓ} ⦃e : Key A⦄ where
  infix 50 ◌==◌
  abbrev pub ◌==◌ : A → A → Bool
  a == b = e.matches a b

  pub beq_self : (a : A) → (a == a) ≡ true
  beq_self a = (e.matches_iff a a).1 refl

module _ {ℓ κ} {A : Type ℓ} {B : Type κ} ⦃e : Key A⦄ ⦃f : Key B⦄ where
  abbrev both_match : A × B → A × B → Bool
  both_match p q = e.matches p.0 q.0 && f.matches p.1 q.1

  pub both_match_iff : (p q : A × B) → (both_match p q ≡ true) ↔ (p ≡ q)
  both_match_iff p q = (
    λ h. (λ i.
        ((e.matches_iff p.0 q.0).0 (ground arith) i, (f.matches_iff p.1 q.1).0 (ground arith) i)),
    λ h. ground (
      arith,
      (e.matches_iff p.0 q.0).1 (ap (λ x. x.0) h),
      (f.matches_iff p.1 q.1).1 (ap (λ x. x.1) h),
    ),
  )

  instance abbrev pub pair_eq : Key (A × B)
  pair_eq = record { matches = both_match; matches_iff = both_match_iff }

-- Lists are compared entry by entry.
module _ {ℓ} {A : Type ℓ} ⦃e : Key A⦄ where
  abbrev all_match : List A → List A → Bool
  all_match [] [] = true
  all_match [] (y ∷ ys) = false
  all_match (x ∷ xs) [] = false
  all_match (x ∷ xs) (y ∷ ys) = e.matches x y && all_match xs ys

  pub all_match_iff : (xs ys : List A) → (all_match xs ys ≡ true) ↔ (xs ≡ ys)
  all_match_iff [] [] = (λ _. refl, λ _. refl)
  all_match_iff [] (y ∷ ys) = (λ h. ground arith, λ h. ground arith)
  all_match_iff (x ∷ xs) [] = (λ h. ground arith, λ h. ground arith)
  all_match_iff (x ∷ xs) (y ∷ ys) = (
    λ h. ground (arith, e.matches_iff x y, all_match_iff xs ys),
    λ h. ground (arith, e.matches_iff x y, all_match_iff xs ys),
  )

  instance abbrev pub list_eq : Key (List A)
  list_eq = record { matches = all_match; matches_iff = all_match_iff }
