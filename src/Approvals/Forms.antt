-- ===== src/Approvals/Forms.antt =====
-- How risk/classifier.py tells a call of pytest, and an argument that begins outside the workspace.
use codex_watchdog.Common.{
  String, ◌≡◌, ◌≢◌, refl, sym, ◌∙◌, ◌↔◌, ◌⊎◌, inl, inr, Bool, true, false, ◌&&◌, ◌||◌, Option, none,
  some, List, [], ◌∷◌, arith, ◌==◌, eq_iff, if◌then◌else◌, Bool-cases, Result,
}
use mathlib.Core.Path.{subst}
use codex_watchdog.Common.Texts.{strip}
use text.Mathlib.Text.{starts_with}
use codex_watchdog.Approvals.Splitting.{has_drive, after_last}
use codex_watchdog.Approvals.Risk.{is_path_boundary_escape, pytest_args}

-- A text that does not begin with a root, a home folder, a drive or a step up, and is not the folder
-- itself. What follows is not looked at.
pub record BeginsInside (n : String) : Type 0 where
  pub no_root : starts_with n "/" ≡ false
  pub no_home : starts_with n "~" ≡ false
  pub no_drive : has_drive n ≡ false
  pub not_parent : n ≢ ".."
  pub not_here : n ≢ "."
  pub no_step_up : starts_with n "../" ≡ false
  pub no_step_up_back : starts_with n "..\\" ≡ false

differs : (s t : String) → (s == t) ≡ false → s ≢ t
differs s t off same = let clash : true ≡ false = sym ((eq_iff s t).1 same) ∙ off in cc

same_not : (s t : String) → s ≢ t → (s == t) ≡ false
same_not s t apart = elim (Bool-cases (s == t)) [
  | inl on ↦ absurd (apart ((eq_iff s t).0 on))
  | inr off ↦ off
]

some-inj : {x y : List String} → some x ≡ some y → x ≡ y
some-inj h = ground arith

-- Two words at the head of the arguments.
two :
    (a b x y : String) (more : List String) {args : List String}
    → (if x == a && y == b then some more else none) ≡ some args
    → x ∷ y ∷ more ≡ a ∷ b ∷ args
two a b x y more h = ground (arith, eq_iff x a, eq_iff y b)

-- The names of the executable.
ladder :
    (e : String) (a b c : Option (List String)) {args : List String}
    → (if e == "pytest"
        then a
        else if e == "python" || e == "python3"
        then b
        else if e == "uv"
        then c
        else none)
      ≡ some args
    → ((e ≡ "pytest") × (a ≡ some args))
      ⊎ (((e ≡ "python") ⊎ (e ≡ "python3")) × (b ≡ some args))
      ⊎ ((e ≡ "uv") × (c ≡ some args))
ladder e a b c h =
    ground (arith, eq_iff e "pytest", eq_iff e "python", eq_iff e "python3", eq_iff e "uv")

-- The empty text.
nothing : BeginsInside ""
unfolding has_drive
nothing = record {
  no_root = refl;
  no_home = refl;
  no_drive = refl;
  not_parent = differs "" ".." refl;
  not_here = differs "" "." refl;
  no_step_up = refl;
  no_step_up_back = refl;
}

-- The tests of `_is_path_boundary_escape`.
tests :
    (root home drive parent here above back : Bool)
    → (if root || home then true else if drive then true else parent || here || above || back)
      ≡ false
    → (root ≡ false)
      × (home ≡ false)
      × (drive ≡ false)
      × (parent ≡ false)
      × (here ≡ false)
      × (above ≡ false)
      × (back ≡ false)
tests true home drive parent here above back h = cc
tests false true drive parent here above back h = cc
tests false false true parent here above back h = cc
tests false false false true here above back h = cc
tests false false false false true above back h = cc
tests false false false false false true back h = cc
tests false false false false false false true h = cc
tests false false false false false false false h = (refl, refl, refl, refl, refl, refl, refl)

module _ (lower : String → String) (shlex_split : String → Result (List String)) where
  pub is_path_boundary_escape-BeginsInside :
      (arg : String)
      → (is_path_boundary_escape lower shlex_split arg ≡ false) ↔ BeginsInside (lower (strip arg))
  unfolding is_path_boundary_escape
  is_path_boundary_escape-BeginsInside arg = (forth, back)
    where
      n : String
      n = lower (strip arg)

      forth : is_path_boundary_escape lower shlex_split arg ≡ false → BeginsInside n
      forth h = elim (Bool-cases (n == "")) [
        | inl empty ↦ subst BeginsInside (sym ((eq_iff n "").0 empty)) nothing
        | inr full ↦
            let (root, home, drive, parent, here, above, back) =
              tests (starts_with n "/") (starts_with n "~") (has_drive n) (n == "..") (n == ".")
                (starts_with n "../") (starts_with n "..\\") (rw full at h) in
            record {
              no_root = root;
              no_home = home;
              no_drive = drive;
              not_parent = differs n ".." parent;
              not_here = differs n "." here;
              no_step_up = above;
              no_step_up_back = back;
            }
      ]

      back : BeginsInside n → is_path_boundary_escape lower shlex_split arg ≡ false
      back b = elim (Bool-cases (n == "")) [
        | inl empty ↦ rw empty refl
        | inr full ↦
            rw
              (
                full,
                b.no_root,
                b.no_home,
                b.no_drive,
                same_not n ".." b.not_parent,
                same_not n "." b.not_here,
                b.no_step_up,
                b.no_step_up_back,
              )
              refl
      ]

  -- The arguments of a call of pytest: by itself, as a module of Python, or by uv.
  abbrev pub IsPytestCall : List String → (args : List String) → Type 0
  IsPytestCall [] args = ⊥
  IsPytestCall (first ∷ rest) args =
      let executable = lower (after_last b'/' first) in
      ((executable ≡ "pytest") × (rest ≡ args))
      ⊎ (((executable ≡ "python") ⊎ (executable ≡ "python3")) × (rest ≡ "-m" ∷ "pytest" ∷ args))
      ⊎ ((executable ≡ "uv") × (rest ≡ "run" ∷ "pytest" ∷ args))

  pub pytest_args-IsPytestCall :
      (tokens args : List String)
      → pytest_args lower shlex_split tokens ≡ some args
      → IsPytestCall tokens args
  unfolding pytest_args
  pytest_args-IsPytestCall [] args h = cc
  pytest_args-IsPytestCall (first ∷ []) args h =
      elim (ladder (lower (after_last b'/' first)) (some []) none none h) [
        | inl (name, e) ↦ inl (name, some-inj e)
        | inr (inl (name, e)) ↦ cc
        | inr (inr (name, e)) ↦ cc
      ]
  pytest_args-IsPytestCall (first ∷ x ∷ []) args h =
      elim (ladder (lower (after_last b'/' first)) (some (x ∷ [])) none none h) [
        | inl (name, e) ↦ inl (name, some-inj e)
        | inr (inl (name, e)) ↦ cc
        | inr (inr (name, e)) ↦ cc
      ]
  pytest_args-IsPytestCall (first ∷ x ∷ y ∷ more) args h =
      elim (ladder (lower (after_last b'/' first)) (some (x ∷ y ∷ more))
        (if x == "-m" && y == "pytest" then some more else none)
        (if x == "run" && y == "pytest" then some more else none) h) [
          | inl (name, e) ↦ inl (name, some-inj e)
          | inr (inl (name, e)) ↦ inr (inl (name, two "-m" "pytest" x y more e))
          | inr (inr (name, e)) ↦ inr (inr (name, two "run" "pytest" x y more e))
        ]

  pub IsPytestCall-args :
      (tokens args : List String)
      → IsPytestCall tokens args
      → pytest_args lower shlex_split tokens ≡ some args
  unfolding pytest_args
  IsPytestCall-args [] args call = absurd call
  IsPytestCall-args (first ∷ rest) args (inl (name, e)) = rw (pytest_args, name, e) refl
  IsPytestCall-args (first ∷ rest) args (inr (inl (inl name, e))) = rw (e, pytest_args, name) refl
  IsPytestCall-args (first ∷ rest) args (inr (inl (inr name, e))) = rw (e, pytest_args, name) refl
  IsPytestCall-args (first ∷ rest) args (inr (inr (name, e))) = rw (e, pytest_args, name) refl
