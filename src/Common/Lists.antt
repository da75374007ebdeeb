-- ===== src/Common/Lists.antt =====
-- Lists measured by native numbers, and a predicate that holds all along a list.
use Prim.Native.Nat.{ℕ, suc, ◌+◌}
use mathlib.Core.Path.{◌≡◌, refl}
use mathlib.Core.Bool.{Bool, true}
use mathlib.Core.List.{List, [], ◌∷◌, ◌++◌}
use native.Mathlib.Omega.{arith}
use codex_watchdog.Common.Tests.{if◌then◌else◌, Bool-cases}
use mathlib.Core.Logic.{inl, inr}

module _ {ℓ} {A : Type ℓ} where
  abbrev pub length : List A → ℕ
  length [] = 0
  length (x ∷ xs) = suc (length xs)

  -- A comprehension `[x for x in xs if p(x)]`.
  unfoldable pub keep : (A → Bool) → List A → List A
  keep p [] = []
  keep p (x ∷ xs) = if p x then x ∷ keep p xs else keep p xs

  pub length-append : (xs ys : List A) → length (xs ++ ys) ≡ length xs + length ys
  length-append [] ys = omega arith
  length-append (x ∷ xs) ys = omega (arith, length-append xs ys)

  pub keep-append : (p : A → Bool) (xs ys : List A) → keep p (xs ++ ys) ≡ keep p xs ++ keep p ys
  unfolding keep
  keep-append p [] ys = refl
  keep-append p (x ∷ xs) ys = ground (arith, keep-append p xs ys)

  pub keep-one : (p : A → Bool) (x : A) → p x ≡ true → keep p (x ∷ []) ≡ x ∷ []
  unfolding keep
  keep-one p x h = rw h refl

module _ {ℓ κ} {A : Type ℓ} (P : A → Type κ) where
  abbrev pub All : List A → Type κ
  All [] = Unit
  All (x ∷ xs) = P x × All xs

  pub All-append : (xs ys : List A) → All xs → All ys → All (xs ++ ys)
  All-append [] ys hx hy = hy
  All-append (x ∷ xs) ys hx hy = (hx.0, All-append xs ys hx.1 hy)

  pub keep-All : (p : A → Bool) (xs : List A) → All xs → All (keep p xs)
  unfolding keep
  keep-All p [] h = tt
  keep-All p (x ∷ xs) h = elim (Bool-cases (p x)) [
    | inl here ↦ rw here (h.0, keep-All p xs h.1)
    | inr other ↦ rw other (keep-All p xs h.1)
  ]

-- `R` between each element and each later one.
module _ {ℓ κ} {A : Type ℓ} (R : A → A → Type κ) where
  abbrev pub Pairwise : List A → Type κ
  Pairwise [] = Unit
  Pairwise (x ∷ xs) = All (R x) xs × Pairwise xs

  pub Pairwise-snoc :
      (xs : List A) (y : A) → All (λ x. R x y) xs → Pairwise xs → Pairwise (xs ++ y ∷ [])
  Pairwise-snoc [] y h p = (tt, tt)
  Pairwise-snoc (x ∷ xs) y h p =
      (All-append (R x) xs (y ∷ []) p.0 (h.0, tt), Pairwise-snoc xs y h.1 p.1)

module _ {ℓ κ} {A : Type ℓ} {P Q : A → Type κ} where
  pub All-weaken : (f : (a : A) → P a → Q a) (xs : List A) → All P xs → All Q xs
  All-weaken f [] h = tt
  All-weaken f (x ∷ xs) h = (f x h.0, All-weaken f xs h.1)
