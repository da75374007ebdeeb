-- ===== src/Approvals/Pytest.antt =====
-- Which pytest calls risk/classifier.py holds for safe.
use codex_watchdog.Common.{
  ◌∙◌, sym, String, ◌≡◌, refl, ◌↔◌, ◌⊎◌, inl, inr, Bool, true, false, ◌&&◌, ◌||◌, not, List, [],
  ◌∷◌, arith, if◌then◌else◌, Bool-cases, Option-cases, Result, All,
}
use codex_watchdog.Common.Texts.{one_of, strip}
use codex_watchdog.Common.Membership.{Among, one_of-Among}
use text.Mathlib.Text.{starts_with}
use codex_watchdog.Approvals.Splitting.{starts_with_any, is_plain_path}
use codex_watchdog.Approvals.Risk.{
  pytest_path_flags, split_command, is_path_boundary_escape, pytest_args, safe_args,
  is_safe_local_pytest_command,
}
use codex_watchdog.Approvals.Forms.{
  BeginsInside, is_path_boundary_escape-BeginsInside, IsPytestCall, pytest_args-IsPytestCall,
  IsPytestCall-args,
}

module _ (lower : String → String) (shlex_split : String → Result (List String)) where
  -- An argument that is none of the flags that name a folder or a file for pytest, with or without
  -- a value, does not begin outside the workspace, and is an option or a plain path.
  pub record Admissible (arg : String) : Type 0 where
    pub no_flag : Among ("--rootdir" ∷ "--basetemp" ∷ "--confcutdir" ∷ "-c" ∷ []) arg → ⊥
    pub no_rootdir : starts_with arg "--rootdir=" ≡ false
    pub no_basetemp : starts_with arg "--basetemp=" ≡ false
    pub no_confcutdir : starts_with arg "--confcutdir=" ≡ false
    pub no_config : starts_with arg "-c=" ≡ false
    pub inside : BeginsInside (lower (strip arg))
    pub plain : (starts_with arg "-" ≡ true) ⊎ (is_plain_path arg ≡ true)

  -- A flag that wants a value makes the command unsafe, with a value after it or without.
  safe_args-flag : (args : List String) → safe_args lower shlex_split true args ≡ false
  unfolding safe_args
  safe_args-flag [] = refl
  safe_args-flag (arg ∷ args) = refl

  -- The tests of one argument.
  loop :
      (named value escape option plain next : Bool)
      → (if named
          then false
          else if value
          then false
          else if escape
          then false
          else if not option && not plain
          then false
          else next)
        ≡ true
      → (named ≡ false)
        × (value ≡ false)
        × (escape ≡ false)
        × ((option ≡ true) ⊎ (plain ≡ true))
        × (next ≡ true)
  loop true value escape option plain next h = cc
  loop false true escape option plain next h = cc
  loop false false true option plain next h = cc
  loop false false false true plain next h = (refl, refl, refl, inl refl, h)
  loop false false false false true next h = (refl, refl, refl, inr refl, h)
  loop false false false false false next h = cc

  option_or_plain :
      (option plain : Bool) → (option ≡ true) ⊎ (plain ≡ true) → not option && not plain ≡ false
  option_or_plain true plain h = refl
  option_or_plain false true h = refl
  option_or_plain false false h = ground arith

  four :
      (a b c d : Bool)
      → a || (b || (c || (d || false))) ≡ false
      → (a ≡ false) × (b ≡ false) × (c ≡ false) × (d ≡ false)
  four true b c d h = cc
  four false true c d h = cc
  four false false true d h = cc
  four false false false true h = cc
  four false false false false h = (refl, refl, refl, refl)

  unnamed :
      (arg : String)
      → one_of pytest_path_flags arg ≡ false
      → Among ("--rootdir" ∷ "--basetemp" ∷ "--confcutdir" ∷ "-c" ∷ []) arg
      → ⊥
  unnamed arg off named =
      let clash : true ≡ false = sym ((one_of-Among pytest_path_flags arg).1 named) ∙ off in cc

  named_not :
      (arg : String)
      → (Among ("--rootdir" ∷ "--basetemp" ∷ "--confcutdir" ∷ "-c" ∷ []) arg → ⊥)
      → one_of pytest_path_flags arg ≡ false
  named_not arg free = elim (Bool-cases (one_of pytest_path_flags arg)) [
    | inl on ↦ absurd (free ((one_of-Among pytest_path_flags arg).0 on))
    | inr off ↦ off
  ]

  safe_args-Admissible :
      (args : List String) → safe_args lower shlex_split false args ≡ true → All Admissible args
  unfolding safe_args starts_with_any
  safe_args-Admissible [] h = tt
  safe_args-Admissible (arg ∷ args) h =
      let (unflagged, valueless, within, shape, rest) =
        loop (one_of pytest_path_flags arg)
          (starts_with_any ("--rootdir=" ∷ "--basetemp=" ∷ "--confcutdir=" ∷ "-c=" ∷ []) arg)
          (is_path_boundary_escape lower shlex_split arg) (starts_with arg "-") (is_plain_path arg)
          (safe_args lower shlex_split false args) (rw (safe_args, safe_args-flag args) at h) in
      let (rootdir, basetemp, confcutdir, config) =
        four (starts_with arg "--rootdir=") (starts_with arg "--basetemp=")
          (starts_with arg "--confcutdir=") (starts_with arg "-c=") valueless in
      (
        record {
          no_flag = unnamed arg unflagged;
          no_rootdir = rootdir;
          no_basetemp = basetemp;
          no_confcutdir = confcutdir;
          no_config = config;
          inside = (is_path_boundary_escape-BeginsInside lower shlex_split arg).0 within;
          plain = shape;
        },
        safe_args-Admissible args rest,
      )

  Admissible-safe :
      (args : List String) → All Admissible args → safe_args lower shlex_split false args ≡ true
  unfolding safe_args starts_with_any
  Admissible-safe [] h = refl
  Admissible-safe (arg ∷ args) (first, rest) =
      rw
        (
          safe_args,
          named_not arg first.no_flag,
          first.no_rootdir,
          first.no_basetemp,
          first.no_confcutdir,
          first.no_config,
          (is_path_boundary_escape-BeginsInside lower shlex_split arg).1 first.inside,
          option_or_plain _ _ first.plain,
        )
        (Admissible-safe args rest)

  -- The classifier holds a command for a safe local pytest call exactly when its tokens call
  -- pytest, by its name, as python -m pytest, or by uv run pytest, and each argument, by itself,
  -- is none of the flags --rootdir, --basetemp, --confcutdir and -c, with or without a value, does
  -- not begin with a root, a home folder, a drive or a step up, is not the folder itself or its
  -- parent, and is an option or a plain path. What follows the beginning of an argument is not
  -- looked at, and nor is the value of another option.
  pub pytest_command_iff :
      (command : String)
      → (is_safe_local_pytest_command lower shlex_split command ≡ true) ↔ (
          (args : List String) × IsPytestCall lower shlex_split
            (split_command lower shlex_split command)
            args
          × All Admissible args)
  unfolding is_safe_local_pytest_command
  pytest_command_iff command = (
    forth,
    λ (args, call, fine).
        rw
          (
            is_safe_local_pytest_command,
            IsPytestCall-args lower shlex_split (split_command lower shlex_split command) args call,
          )
          (Admissible-safe args fine),
  )
    where
      forth :
          is_safe_local_pytest_command lower shlex_split command ≡ true
          → (args : List String) × IsPytestCall lower shlex_split
              (split_command lower shlex_split command)
              args
            × All Admissible args
      forth h =
          elim (Option-cases
            (pytest_args lower shlex_split (split_command lower shlex_split command))) [
              | inl no_call ↦
                  let clash : false ≡ true = (rw (is_safe_local_pytest_command, no_call) at h) in cc
              | inr (args, call) ↦ (
                args,
                pytest_args-IsPytestCall lower shlex_split (split_command lower shlex_split command)
                    args call,
                safe_args-Admissible args (rw (is_safe_local_pytest_command, call) at h),
              )
            ]
