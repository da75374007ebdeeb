-- ===== src/Common/Texts.antt =====
-- Text: the f-strings, and Python's `strip`, `split` and `removeprefix` on the texts of the sources.
-- `strip` removes ASCII white space.
use Prim.Native.Nat.{ℕ, zero, suc, ◌+◌, ◌*◌, ◌-◌, ◌/◌, ◌%◌, Ordering}
use Prim.Native.Char.{Char, code}
use Prim.Native.String.{String, len, slice, compare}
use Prim.Native.String as S
use mathlib.Core.Path.{◌≡◌, refl}
use mathlib.Core.Bool.{Bool, true, false, ◌&&◌, ◌||◌}
use mathlib.Core.Option.{Option, none, some}
use mathlib.Core.List.{List, [], ◌∷◌}
use text.Mathlib.Text.{starts_with, ◌==◌}
use codex_watchdog.Common.Tests.{ltb, leb, nat_eq, if◌then◌else◌}

-- An f-string: its parts, one after the other.
unfoldable pub format : List String → String
format [] = ""
format (s ∷ rest) = S.◌++◌ s (format rest)

unfoldable pub join : String → List String → String
join sep [] = ""
join sep (s ∷ []) = s
join sep (s ∷ t ∷ rest) = S.◌++◌ s (S.◌++◌ sep (join sep (t ∷ rest)))

abbrev pub digit : ℕ → String
digit d =
    if nat_eq d 0
    then "0"
    else if nat_eq d 1
    then "1"
    else if nat_eq d 2
    then "2"
    else if nat_eq d 3
    then "3"
    else if nat_eq d 4
    then "4"
    else if nat_eq d 5
    then "5"
    else if nat_eq d 6
    then "6"
    else if nat_eq d 7
    then "7"
    else if nat_eq d 8
    then "8"
    else "9"

-- `str(n)`, with fuel for the digits; `n + 1` is more than the digits of `n`.
unfoldable pub digits : ℕ → ℕ → String
digits zero n = ""
digits (suc f) n =
    let rest = S.◌++◌ (digits f (n / 10)) (digit (n % 10)) in if ltb n 10 then digit n else rest

unfoldable pub show : ℕ → String
unfolding digits
show n = digits (suc n) n

unfoldable pub is_space : Char → Bool
is_space c =
    nat_eq (code c) 32 || leb 9 (code c) && leb (code c) 13 || leb 28 (code c) && leb (code c) 31

unfoldable pub lstrip : String → String
unfolding is_space
lstrip S.[] = ""
lstrip (S.◌∷◌ c s) = let rest = lstrip s in if is_space c then rest else S.◌∷◌ c s

unfoldable pub rstrip : String → String
unfolding is_space
rstrip S.[] = ""
rstrip (S.◌∷◌ c s) =
    let rest = rstrip s in
    if rest == "" then (if is_space c then "" else S.◌∷◌ c "") else S.◌∷◌ c rest

unfoldable pub strip : String → String
unfolding lstrip rstrip
strip s = rstrip (lstrip s)

unfoldable pub remove_prefix : String → String → String
remove_prefix prefix s = if starts_with s prefix then slice s (len prefix) (len s) else s

-- The part of a text in front of the first `sep`, and all of it where there is none.
unfoldable pub before_char : ℕ → String → String
before_char sep S.[] = ""
before_char sep (S.◌∷◌ c s) = if nat_eq (code c) sep then "" else S.◌∷◌ c (before_char sep s)

-- `s in {…}`
unfoldable pub one_of : List String → String → Bool
one_of [] s = false
one_of (t ∷ ts) s = s == t || one_of ts s

-- `a <= b` on texts: by code points.
abbrev pub text_leb : String → String → Bool
text_leb a b = elim (compare a b) [ Ordering.gt ↦ false | _ ↦ true ]

-- `a < b` on texts
abbrev pub text_lt : String → String → Bool
text_lt a b = elim (compare a b) [ Ordering.lt ↦ true | _ ↦ false ]

-- `sorted` of texts.
unfoldable pub insert_text : String → List String → List String
insert_text k [] = k ∷ []
insert_text k (j ∷ js) = if text_leb k j then k ∷ j ∷ js else j ∷ insert_text k js

unfoldable pub sort_texts : List String → List String
unfolding insert_text
sort_texts [] = []
sort_texts (k ∷ ks) = insert_text k (sort_texts ks)

-- `s[len(prefix):]` where `s` starts with `prefix`
unfoldable pub after_prefix : String → String → Option String
after_prefix prefix s = if starts_with s prefix then some (slice s (len prefix) (len s)) else none

-- The digits of `int(s)`, read from the left; ASCII digits only.
unfoldable pub read_digits : ℕ → String → Option ℕ
read_digits n S.[] = some n
read_digits n (S.◌∷◌ c s) =
    let rest = read_digits (n * 10 + (code c - 48)) s in
    if leb 48 (code c) && leb (code c) 57 then rest else none

-- `re.fullmatch(r"(\d+)", s)` and `int` of the match.
unfoldable pub read_nat : String → Option ℕ
unfolding read_digits
read_nat s = if s == "" then none else read_digits 0 s

tests :
    (format ("command-event:" ∷ show 120 ∷ []) ≡ "command-event:120")
    × (strip " a b\n" ≡ "a b")
    × (remove_prefix "session:" "session:p:1" ≡ "p:1")
    × (before_char b':' "p:1" ≡ "p")
unfolding format show strip remove_prefix before_char
tests = (refl, refl, refl, refl)
