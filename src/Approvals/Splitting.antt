-- ===== src/Approvals/Splitting.antt =====
-- The text methods of Python that risk/classifier.py takes commands apart with.
use codex_watchdog.Common.{
  ℕ, ◌+◌, String, Bool, true, false, ◌&&◌, ◌||◌, not, List, [], ◌∷◌, ◌==◌, leb, nat_eq,
  if◌then◌else◌, keep,
}
use codex_watchdog.Common.Texts.{is_space}
use Prim.Native.Char.{Char, code}
use Prim.Native.String.{len, slice}
use Prim.Native.String as S
use text.Mathlib.Text.{starts_with}

-- `needle in s`
unfoldable pub contains : (needle : String) → String → Bool
contains needle S.[] = needle == ""
contains needle (S.◌∷◌ c s) =
    let later = contains needle s in starts_with (S.◌∷◌ c s) needle || later

-- `any(m in s for m in markers)`
unfoldable pub contains_any : (markers : List String) → String → Bool
unfolding contains
contains_any [] s = false
contains_any (m ∷ markers) s = contains m s || contains_any markers s

-- `any(s.startswith(p) for p in prefixes)`
unfoldable pub starts_with_any : (prefixes : List String) → String → Bool
starts_with_any [] s = false
starts_with_any (p ∷ prefixes) s = starts_with s p || starts_with_any prefixes s

abbrev is_char : ℕ → Char → Bool
is_char sep c = nat_eq (code c) sep

has_char : (sep : ℕ) → String → Bool
has_char sep S.[] = false
has_char sep (S.◌∷◌ c s) = let later = has_char sep s in is_char sep c || later

-- `s.rsplit(sep, 1)[-1]`
unfoldable pub after_last : (sep : ℕ) → String → String
unfolding has_char
after_last sep S.[] = ""
after_last sep (S.◌∷◌ c s) =
    let rest = after_last sep s in
    if has_char sep s then rest else if is_char sep c then s else S.◌∷◌ c s

abbrev grow_first : Char → List String → List String
grow_first c [] = S.◌∷◌ c "" ∷ []
grow_first c (word ∷ words) = S.◌∷◌ c word ∷ words

-- `s.split(sep)`
unfoldable pub split_char : (sep : ℕ) → String → List String
split_char sep S.[] = "" ∷ []
split_char sep (S.◌∷◌ c s) =
    let rest = split_char sep s in if is_char sep c then "" ∷ rest else grow_first c rest

-- `s.lstrip("-")`
unfoldable pub strip_dashes : String → String
strip_dashes S.[] = ""
strip_dashes (S.◌∷◌ c s) = let rest = strip_dashes s in if is_char b'-' c then rest else S.◌∷◌ c s

blank_split : String → List String
unfolding is_space
blank_split S.[] = "" ∷ []
blank_split (S.◌∷◌ c s) =
    let rest = blank_split s in if is_space c then "" ∷ rest else grow_first c rest

-- `s.split()`
unfoldable pub words : String → List String
unfolding blank_split
words s = keep (λ w. not (w == "")) (blank_split s)

-- `re.fullmatch(r"[A-Za-z0-9_./:\-\[\]]+", s) is not None`
is_plain : Char → Bool
is_plain c =
    let n = code c in
    leb 65 n && leb n 91
    || leb 97 n && leb n 122
    || leb 45 n && leb n 58
    || nat_eq n 95
    || nat_eq n 93

all_plain : String → Bool
unfolding is_plain
all_plain S.[] = true
all_plain (S.◌∷◌ c s) = let later = all_plain s in is_plain c && later

unfoldable pub is_plain_path : String → Bool
unfolding all_plain
is_plain_path s = not (s == "") && all_plain s

-- `re.match(r"^[a-z]:[\\/]", s)`
unfoldable pub has_drive : String → Bool
has_drive (S.◌∷◌ a (S.◌∷◌ b (S.◌∷◌ c s))) =
    leb 97 (code a) && leb (code a) 122 && is_char 58 b && (is_char 92 c || is_char 47 c)
has_drive _ = false

-- `[\s"';|&()]`
is_separator : Char → Bool
unfolding is_space
is_separator c =
    is_space c
    || is_char b'"' c
    || is_char 39 c
    || is_char b';' c
    || is_char b'|' c
    || is_char b'&' c
    || is_char b'(' c
    || is_char b')' c

-- The search of `_contains_command_word`. `is_word` is the class `\w`, whose Unicode part is Python's.
module _ (is_word : Char → Bool) where
  begins_word : String → Bool
  begins_word S.[] = false
  begins_word (S.◌∷◌ c s) = is_word c

  -- `{marker}\b`; every marker ends in a letter or a digit.
  word_here : (marker : String) → String → Bool
  unfolding begins_word
  word_here marker s = starts_with s marker && not (begins_word (slice s (len marker) (len s)))

  -- `passed` characters lie behind the last separator, or behind the start, and the last of them is
  -- a slash if `slashed` holds. The marker may stand here if there are none, or if they are one or
  -- more and a slash.
  search_word : (passed : ℕ) (slashed : Bool) (marker : String) → String → Bool
  unfolding word_here is_separator
  search_word passed slashed marker S.[] =
      (nat_eq passed 0 || leb 2 passed && slashed) && word_here marker ""
  search_word passed slashed marker (S.◌∷◌ c s) =
      let again = search_word 0 false marker s in
      let later = search_word (passed + 1) (is_char b'/' c) marker s in
      (nat_eq passed 0 || leb 2 passed && slashed) && word_here marker (S.◌∷◌ c s)
      || (if is_separator c then again else later)

  unfoldable pub contains_command_word : (marker command : String) → Bool
  unfolding search_word
  contains_command_word marker command = search_word 0 false marker command
