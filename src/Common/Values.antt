-- ===== src/Common/Values.antt =====
-- The values of a JSON payload (`dict[str, Any]`). A list or a nested object is held by the
-- canonical text of its items, which is all that the sources compare or pass on.
use Prim.Native.Nat.{ℕ}
use Prim.Native.String.{String}
use mathlib.Core.Path.{◌≡◌, refl, ap}
use mathlib.Core.Bool.{Bool, true, false, ◌&&◌}
use mathlib.Core.Option.{Option, none, some}
use mathlib.Core.List.{List, [], ◌∷◌}
use text.Mathlib.Text.{◌==◌}
use text.Mathlib.TextEquality.{eq_iff}
use text.Mathlib.TextPositions.{eq_refl}
use codex_watchdog.Common.Tests.{nat_eq, nat_eq_refl}
use codex_watchdog.Common.Dicts.{Dict, get, put, keys}

pub data Value : Type 0 where
  null : Value
  flag : Bool → Value
  number : ℕ → Value
  string : String → Value
  items : List String → Value
  table : Dict String → Value

abbrev pub flag_eq : Bool → Bool → Bool
flag_eq true b = b
flag_eq false true = false
flag_eq false false = true

unfoldable pub items_eq : List String → List String → Bool
items_eq [] [] = true
items_eq (x ∷ xs) (y ∷ ys) = x == y && items_eq xs ys
items_eq _ _ = false

module _ {ℓ} {A : Type ℓ} (same : A → A → Bool) where
  unfoldable pub option_eq : Option A → Option A → Bool
  option_eq none none = true
  option_eq (some a) (some b) = same a b
  option_eq _ _ = false

  -- `d == e` for dicts: they agree at each key of either, whatever the order.
  agree_at : List String → Dict A → Dict A → Bool
  agree_at [] d e = true
  agree_at (k ∷ ks) d e = option_eq (get k d) (get k e) && agree_at ks d e

  unfoldable pub dict_eq : Dict A → Dict A → Bool
  unfolding agree_at option_eq
  dict_eq d e = agree_at (keys d) d e && agree_at (keys e) d e

  module _ (same_refl : (a : A) → same a a ≡ true) where
    pub option_eq_refl : (o : Option A) → option_eq o o ≡ true
    unfolding option_eq
    option_eq_refl none = refl
    option_eq_refl (some a) = same_refl a

    agree_at_refl : (ks : List String) (d : Dict A) → agree_at ks d d ≡ true
    unfolding agree_at
    agree_at_refl [] d = refl
    agree_at_refl (k ∷ ks) d = rw (option_eq_refl (get k d)) (agree_at_refl ks d)

    pub dict_eq_refl : (d : Dict A) → dict_eq d d ≡ true
    unfolding dict_eq
    dict_eq_refl d = rw (agree_at_refl (keys d) d) refl

abbrev pub text_eq : String → String → Bool
text_eq a b = a == b

-- `True == 1` and `False == 0`
abbrev pub number_eq : Bool → ℕ → Bool
number_eq true n = nat_eq n 1
number_eq false n = nat_eq n 0

unfoldable pub value_eq : Value → Value → Bool
unfolding items_eq dict_eq
value_eq null null = true
value_eq (flag a) (flag b) = flag_eq a b
value_eq (number a) (number b) = nat_eq a b
value_eq (flag a) (number b) = number_eq a b
value_eq (number a) (flag b) = number_eq b a
value_eq (string a) (string b) = a == b
value_eq (items a) (items b) = items_eq a b
value_eq (table a) (table b) = dict_eq text_eq a b
value_eq _ _ = false

items_eq_refl : (xs : List String) → items_eq xs xs ≡ true
unfolding items_eq
items_eq_refl [] = refl
items_eq_refl (x ∷ xs) = rw (eq_refl x) (items_eq_refl xs)

pub value_eq_refl : (v : Value) → value_eq v v ≡ true
unfolding value_eq
value_eq_refl null = refl
value_eq_refl (flag true) = refl
value_eq_refl (flag false) = refl
value_eq_refl (number n) = nat_eq_refl n
value_eq_refl (string s) = eq_refl s
value_eq_refl (items xs) = items_eq_refl xs
value_eq_refl (table d) = dict_eq_refl text_eq eq_refl d

-- `{**payload, "key": value}` where the value is not `None`
abbrev pub with_text : String → Option String → Dict Value → Dict Value
with_text k none d = d
with_text k (some s) d = put k (string s) d

pub option_eq-some :
    (o : Option String) (s : String) → option_eq text_eq o (some s) ≡ true → o ≡ some s
unfolding option_eq
option_eq-some none s h = cc
option_eq-some (some t) s h = ap some ((eq_iff t s).0 h)
