-- ===== src/Common/Ordering.antt =====
-- The order of texts by code points, and of pairs by their first parts, then by their second ones.
use Prim.Native.Nat.{ℕ, Ordering, compare as compare_ℕ, ◌<◌}
use Prim.Native.Char.{code}
use Prim.Native.String.compare
use Prim.Native.String.{String, compare, then}
use Prim.Native.String as S
use mathlib.Core.Path.{◌≡◌, refl, sym, ◌∙◌, subst}
use mathlib.Core.Logic.{◌⊎◌, inl, inr}
use mathlib.Core.Bool.{true, false}
use native.Mathlib.Omega.{arith, compare-lt}
use text.Mathlib.TextEquality.{path_by_compare, codes_equal}
use codex_watchdog.Common.Texts.{text_lt}

-- `s < t`, read off the characters: `t` goes on where `s` ends, or has the larger character at the
-- first place where they differ.
abbrev pub TextLess : String → String → Type 0
TextLess s S.[] = ⊥
TextLess S.[] (S.◌∷◌ d t) = Unit
TextLess (S.◌∷◌ c s) (S.◌∷◌ d t) = (code c < code d) ⊎ ((c ≡ d) × TextLess s t)

pub TextLess-trans : (s t u : String) → TextLess s t → TextLess t u → TextLess s u
TextLess-trans s t S.[] p q = absurd q
TextLess-trans s S.[] (S.◌∷◌ e u) p q = absurd p
TextLess-trans S.[] (S.◌∷◌ d t) (S.◌∷◌ e u) p q = tt
TextLess-trans (S.◌∷◌ c s) (S.◌∷◌ d t) (S.◌∷◌ e u) (inl p) (inl q) = inl (omega arith)
TextLess-trans (S.◌∷◌ c s) (S.◌∷◌ d t) (S.◌∷◌ e u) (inl p) (inr (same, q)) =
    inl (subst (λ x. code c < code x) same p)
TextLess-trans (S.◌∷◌ c s) (S.◌∷◌ d t) (S.◌∷◌ e u) (inr (same, p)) (inl q) =
    inl (subst (λ x. code x < code e) (sym same) q)
TextLess-trans (S.◌∷◌ c s) (S.◌∷◌ d t) (S.◌∷◌ e u) (inr (same, p)) (inr (same', q)) =
    inr (same ∙ same', TextLess-trans s t u p q)

then-lt :
    (o p : Ordering)
    → then o p ≡ Ordering.lt
    → (o ≡ Ordering.lt) ⊎ ((o ≡ Ordering.eq) × (p ≡ Ordering.lt))
then-lt Ordering.lt p h = inl refl
then-lt Ordering.eq p h = inr (refl, h)
then-lt Ordering.gt p h = cc

then-gt :
    (o p : Ordering)
    → then o p ≡ Ordering.gt
    → (o ≡ Ordering.gt) ⊎ ((o ≡ Ordering.eq) × (p ≡ Ordering.gt))
then-gt Ordering.lt p h = cc
then-gt Ordering.eq p h = inr (refl, h)
then-gt Ordering.gt p h = inl refl

more : (m n : ℕ) → compare_ℕ m n ≡ Ordering.gt → n < m
more m n h = ground arith

compare-less : (s t : String) → compare s t ≡ Ordering.lt → TextLess s t
compare-less S.[] S.[] h = let e = sym (λ i. compare.nil-nil i) ∙ h in cc
compare-less S.[] (S.◌∷◌ d t) h = tt
compare-less (S.◌∷◌ c s) S.[] h = let e = sym (λ i. compare.cons-nil c s i) ∙ h in cc
compare-less (S.◌∷◌ c s) (S.◌∷◌ d t) h =
    elim (then-lt (compare_ℕ (code c) (code d)) (compare s t)
      (sym (λ i. compare.cons-cons c d s t i) ∙ h)) [
        | inl first ↦ inl (compare-lt (code c) (code d) first)
        | inr (same, rest) ↦ inr (codes_equal c d same, compare-less s t rest)
      ]

compare-more : (s t : String) → compare s t ≡ Ordering.gt → TextLess t s
compare-more S.[] S.[] h = let e = sym (λ i. compare.nil-nil i) ∙ h in cc
compare-more S.[] (S.◌∷◌ d t) h = let e = sym (λ i. compare.nil-cons d t i) ∙ h in cc
compare-more (S.◌∷◌ c s) S.[] h = tt
compare-more (S.◌∷◌ c s) (S.◌∷◌ d t) h =
    elim (then-gt (compare_ℕ (code c) (code d)) (compare s t)
      (sym (λ i. compare.cons-cons c d s t i) ∙ h)) [
        | inl first ↦ inl (more (code c) (code d) first)
        | inr (same, rest) ↦ inr (sym (codes_equal c d same), compare-more s t rest)
      ]

pub text_lt-TextLess : (s t : String) → text_lt s t ≡ true → TextLess s t
text_lt-TextLess s t h = compare-less s t (answer (compare s t) h)
  where
    answer : (o : Ordering) → (elim o [ Ordering.lt ↦ true | _ ↦ false ]) ≡ true → o ≡ Ordering.lt
    answer Ordering.lt h = refl
    answer Ordering.eq h = cc
    answer Ordering.gt h = cc

-- Texts of which neither is smaller by the code's test are the same.
pub text_lt-total : (s t : String) → text_lt s t ≡ false → (s ≡ t) ⊎ TextLess t s
text_lt-total s t h = go (compare s t) refl h
  where
    go :
        (o : Ordering)
        → compare s t ≡ o
        → (elim o [ Ordering.lt ↦ true | _ ↦ false ]) ≡ false
        → (s ≡ t) ⊎ TextLess t s
    go Ordering.lt e h = cc
    go Ordering.eq e h = inl (path_by_compare s t e)
    go Ordering.gt e h = inr (compare-more s t e)

-- First by `f`, then by `Le`.
abbrev pub Lex {ℓ} :
    {A : Type ℓ} {B : Type 0} → (A → B) → (B → B → Type 0) → (A → A → Type 0) → A → A → Type 0
Lex f Lt Le a b = Lt (f a) (f b) ⊎ ((f a ≡ f b) × Le a b)

pub Lex-trans {ℓ} :
    {A : Type ℓ} {B : Type 0} (f : A → B) (Lt : B → B → Type 0) (Le : A → A → Type 0)
    → ((x y z : B) → Lt x y → Lt y z → Lt x z)
    → ((a b c : A) → Le a b → Le b c → Le a c)
    → (a b c : A) → Lex f Lt Le a b
    → Lex f Lt Le b c
    → Lex f Lt Le a c
Lex-trans f Lt Le lt le a b c (inl p) (inl q) = inl (lt (f a) (f b) (f c) p q)
Lex-trans f Lt Le lt le a b c (inl p) (inr (same, q)) = inl (subst (Lt (f a)) same p)
Lex-trans f Lt Le lt le a b c (inr (same, p)) (inl q) = inl (subst (λ x. Lt x (f c)) (sym same) q)
Lex-trans f Lt Le lt le a b c (inr (same, p)) (inr (same', q)) = inr (same ∙ same', le a b c p q)
