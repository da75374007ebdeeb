-- ===== src/Common/Membership.antt =====
-- Membership of a text in a list of texts, for the tests `s in {…}` of the sources.
use Prim.Native.String.{String}
use mathlib.Core.Path.{◌≡◌, refl}
use mathlib.Core.Logic.{◌↔◌, ◌⊎◌, inl, inr}
use mathlib.Core.Bool.{true}
use mathlib.Core.List.{List, [], ◌∷◌}
use native.Mathlib.Omega.{arith}
use text.Mathlib.Text.{◌==◌}
use text.Mathlib.TextEquality.{eq_iff}
use text.Mathlib.TextPositions.{eq_refl}
use codex_watchdog.Common.Tests.{Bool-cases}
use codex_watchdog.Common.Texts.{one_of}

-- A text that is one of a list's.
abbrev pub Among : List String → String → Type 0
Among [] s = ⊥
Among (t ∷ ts) s = (s ≡ t) ⊎ Among ts s

pub one_of-Among : (ts : List String) (s : String) → (one_of ts s ≡ true) ↔ Among ts s
unfolding one_of
one_of-Among [] s = (λ h. cc, absurd)
one_of-Among (t ∷ ts) s = (
  λ h. elim (Bool-cases (s == t)) [
    | inl same ↦ inl ((eq_iff s t).0 same)
    | inr other ↦ inr ((one_of-Among ts s).0 (rw (one_of, other) at h))
  ],
  elim [
    | inl same ↦ rw (one_of, same, eq_refl t) refl
    | inr rest ↦ ground (arith, (one_of-Among ts s).1 rest)
  ],
)
