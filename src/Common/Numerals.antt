-- ===== src/Common/Numerals.antt =====
-- `int(str(n))` is `n`, and what follows a prefix is read back.
use Prim.Native.Nat.{ℕ, zero, suc, ◌+◌, ◌*◌, ◌-◌, ◌/◌, ◌%◌, ◌<◌}
use Prim.Native.String.{String, len, slice}
use Prim.Native.String as S
use Prim.Native.Char.{code}
use text.Mathlib.TextLemmas.{nil-append, cons-append}
use mathlib.Core.Path.{◌≡◌, refl, sym, ap, ◌∙◌}
use mathlib.Core.Logic.{inl, inr}
use mathlib.Core.Bool.{false, ◌&&◌}
use mathlib.Core.Option.{Option, none, some}
use native.Mathlib.Omega.{arith}
use text.Mathlib.Text.{◌==◌}
use text.Mathlib.TextEquality.{eq_iff}
use text.Mathlib.TextPositions.{starts_with-append, slice-append_right, len-append}
use codex_watchdog.Common.Tests.{ltb, leb, Bool-cases}
use codex_watchdog.Common.Texts.{show, digit, digits, read_nat, read_digits, after_prefix}

read_digits-digit : (a d : ℕ) → d < 10 → read_digits a (digit d) ≡ some (a * 10 + d)
unfolding read_digits
read_digits-digit a zero h = refl
read_digits-digit a (suc zero) h = refl
read_digits-digit a (suc (suc zero)) h = refl
read_digits-digit a (suc (suc (suc zero))) h = refl
read_digits-digit a (suc (suc (suc (suc zero)))) h = refl
read_digits-digit a (suc (suc (suc (suc (suc zero))))) h = refl
read_digits-digit a (suc (suc (suc (suc (suc (suc zero)))))) h = refl
read_digits-digit a (suc (suc (suc (suc (suc (suc (suc zero))))))) h = refl
read_digits-digit a (suc (suc (suc (suc (suc (suc (suc (suc zero)))))))) h = refl
read_digits-digit a (suc (suc (suc (suc (suc (suc (suc (suc (suc zero))))))))) h = refl
read_digits-digit a (suc (suc (suc (suc (suc (suc (suc (suc (suc (suc d)))))))))) h =
    absurd (omega arith)

before_digit : Option ℕ → ℕ → Option ℕ
before_digit none d = none
before_digit (some m) d = some (m * 10 + d)

read_digits-snoc :
    (s : String) (a d : ℕ)
    → d < 10
    → read_digits a (S.◌++◌ s (digit d)) ≡ before_digit (read_digits a s) d
unfolding read_digits before_digit
read_digits-snoc S.[] a d h = ap (read_digits a) (nil-append (digit d)) ∙ read_digits-digit a d h
read_digits-snoc (S.◌∷◌ c s) a d h = elim (Bool-cases (leb 48 (code c) && leb (code c) 57)) [
  | inl is_digit ↦
      rw (cons-append c s (digit d), read_digits, is_digit)
        (read_digits-snoc s (a * 10 + (code c - 48)) d h)
  | inr other ↦ rw (cons-append c s (digit d), read_digits, other) refl
]

-- `digits` with fuel enough.
read_digits-digits : (fuel n : ℕ) → n < fuel → read_digits 0 (digits fuel n) ≡ some n
unfolding digits before_digit
read_digits-digits zero n h = absurd (omega arith)
read_digits-digits (suc fuel) n h = elim (Bool-cases (ltb n 10)) [
  | inl small ↦ rw (digits, small) (read_digits-digit 0 n (ground arith) ∙ ap some (omega arith))
  | inr large ↦
      rw (digits, large)
        (read_digits-snoc (digits fuel (n / 10)) 0 (n % 10) (omega arith)
          ∙ ap (λ o. before_digit o (n % 10)) (read_digits-digits fuel (n / 10) (ground arith))
          ∙ ap some (omega arith))
]

read_digits-show : (n : ℕ) → read_digits 0 (show n) ≡ some n
unfolding show
read_digits-show n = read_digits-digits (suc n) n (omega arith)

some-inj : {m n : ℕ} → some m ≡ some n → m ≡ n
some-inj h = ground arith

show-filled : (n : ℕ) → (show n == "") ≡ false
unfolding show digits read_digits
show-filled n = elim (Bool-cases (show n == "")) [
  | inr other ↦ other
  | inl nothing ↦
      let zero_n : 0 ≡ n =
        some-inj (sym (ap (read_digits 0) ((eq_iff (show n) "").0 nothing)) ∙ read_digits-show n) in
      ap (λ k. show k == "") (sym zero_n)
]

-- A number that is printed is read back.
pub read_nat-show : (n : ℕ) → read_nat (show n) ≡ some n
unfolding read_nat
read_nat-show n = rw (read_nat, show-filled n) (read_digits-show n)

-- What stands behind a prefix.
pub after_prefix-append : (p t : String) → after_prefix p (S.◌++◌ p t) ≡ some t
unfolding after_prefix
after_prefix-append p t =
    rw (after_prefix, starts_with-append p t)
      (ap some (ap (slice (S.◌++◌ p t) (len p)) (len-append p t) ∙ slice-append_right p t))
