-- ===== src/Approvals/Harmless.antt =====
-- Which commands the control agent approves by itself.
use Prim.Native.Char.{Char}
use codex_watchdog.Approvals.Risk.{
  any_of, l3_phrase_markers, l3_token_markers, sensitive_path_markers, l2_fail_closed_markers,
  l2_markers, shell_operators, normalized_command_tokens, RiskLevel, l0, l1, l2, l3,
  auto_approve_allowed, all_of, safe_file_permissions, permissions_risk, permissions_of,
  classify_permissions_request, is_sensitive, is_fail_closed, needs_gate,
  is_safe_local_pytest_command, executable_of, is_new_branch, is_add, command_risk, classify_risk,
}
use codex_watchdog.Common.{
  ◌||◌, String, ◌≡◌, refl, ap, ◌∙◌, ◌⊎◌, inl, inr, Bool, true, false, ◌&&◌, Option, none, some,
  List, [], ◌∷◌, arith, ◌==◌, eq_iff, if◌then◌else◌, Bool-cases, Option-cases, Result, All,
  All-weaken,
}
use codex_watchdog.Approvals.Splitting.{contains_any, words}
use codex_watchdog.Common.Texts.{strip, one_of}
use text.Mathlib.Text.{starts_with}
use Prim.Native.String.{len, slice}
use codex_watchdog.Approvals.Store.{
  ApprovalFiles, NewRequest, create_request, new_approval, approved, pending,
}

-- A request for no other permissions than reading and writing files.
pub record AsksForFiles (c : String) : Type 0 where
  pub asks : starts_with c "permissions:" ≡ true
  pub files :
      All (λ item. (item ≡ "fs.read") ⊎ (item ≡ "fs.write")) (permissions_of (slice c 12 (len c)))

all_of-All :
    {A : Type 0} (p : A → Bool) (xs : List A) → all_of p xs ≡ true → All (λ x. p x ≡ true) xs
unfolding all_of
all_of-All p [] h = tt
all_of-All p (x ∷ xs) h = (ground arith, all_of-All p xs (ground arith))

file_permission :
    (item : String)
    → one_of safe_file_permissions item ≡ true
    → (item ≡ "fs.read") ⊎ (item ≡ "fs.write")
unfolding one_of
file_permission item h = ground (arith, eq_iff item "fs.read", eq_iff item "fs.write")

permissions-files :
    (permissions : List String)
    → auto_approve_allowed (permissions_risk permissions) ≡ true
    → All (λ item. (item ≡ "fs.read") ⊎ (item ≡ "fs.write")) permissions
unfolding permissions_risk
permissions-files permissions h =
    All-weaken file_permission permissions
      (all_of-All (one_of safe_file_permissions) permissions (ground arith))

approved_auto : (auto : Bool) → (if auto then approved else pending) ≡ approved → auto ≡ true
approved_auto true h = refl
approved_auto false h = absurd (ground arith)

abbrev allowed_if_some : Option RiskLevel → Bool
allowed_if_some none = false
allowed_if_some (some level) = auto_approve_allowed level

request-files :
    (c : String) (level : RiskLevel)
    → classify_permissions_request c ≡ some level
    → auto_approve_allowed level ≡ true
    → AsksForFiles c
unfolding classify_permissions_request
request-files c level asked auto = elim (Bool-cases (starts_with c "permissions:")) [
  | inr other ↦
      let clash : none ≡ some level = (rw (classify_permissions_request, other) at asked) in cc
  | inl here ↦ elim (Bool-cases (slice c 12 (len c) == "")) [
    | inl bare ↦
        let answer : some l2 ≡ some level =
          (rw (classify_permissions_request, here, bare) at asked) in
        let clash : false ≡ true = ap allowed_if_some answer ∙ auto in cc
    | inr listed ↦ record {
      asks = here;
      files =
          permissions-files (permissions_of (slice c 12 (len c)))
            (ap allowed_if_some (rw (classify_permissions_request, here, listed) at asked) ∙ auto);
    }
  ]
]

-- The order of the tests of `command_risk`, apart from what they test.
ladder :
    (sensitive closed gated pytest git branch add snapshot pwd : Bool)
    → auto_approve_allowed (
        if sensitive
        then l3
        else if closed
        then l2
        else if gated
        then l2
        else if pytest
        then l0
        else if git && branch
        then l1
        else if git && add
        then l1
        else if snapshot
        then l1
        else if pwd
        then l0
        else l2)
      ≡ true
    → (sensitive ≡ false)
      × (closed ≡ false)
      × (gated ≡ false)
      × ((pytest ≡ true)
          ⊎ ((git ≡ true) × ((branch ≡ true) ⊎ (add ≡ true)))
          ⊎ (snapshot ≡ true)
          ⊎ (pwd ≡ true))
ladder true closed gated pytest git branch add snapshot pwd h = cc
ladder false true gated pytest git branch add snapshot pwd h = cc
ladder false false true pytest git branch add snapshot pwd h = cc
ladder false false false true git branch add snapshot pwd h = (refl, refl, refl, inl refl)
ladder false false false false true true add snapshot pwd h =
    (refl, refl, refl, inr (inl (refl, inl refl)))
ladder false false false false true false true snapshot pwd h =
    (refl, refl, refl, inr (inl (refl, inr refl)))
ladder false false false false true false false true pwd h =
    (refl, refl, refl, inr (inr (inl refl)))
ladder false false false false true false false false true h =
    (refl, refl, refl, inr (inr (inr refl)))
ladder false false false false true false false false false h = cc
ladder false false false false false branch add true pwd h =
    (refl, refl, refl, inr (inr (inl refl)))
ladder false false false false false branch add false true h =
    (refl, refl, refl, inr (inr (inr refl)))
ladder false false false false false branch add false false h = cc

three_false : (a b c : Bool) → (a || b || c) ≡ false → (a ≡ false) × (b ≡ false) × (c ≡ false)
three_false true b c h = cc
three_false false true c h = cc
three_false false false true h = cc
three_false false false false h = (refl, refl, refl)

module _ (lower : String → String) (shlex_split : String → Result (List String))
    (is_word : Char → Bool) where
  -- A single plain command, of the few that are known to stay in the workspace.
  pub record Harmless (c : String) : Type 0 where
    pub no_phrase : contains_any l3_phrase_markers c ≡ false
    pub no_token :
        any_of
          (λ marker. one_of (normalized_command_tokens lower shlex_split c) marker)
          l3_token_markers
        ≡ false
    pub no_path : contains_any sensitive_path_markers c ≡ false
    pub not_closed : is_fail_closed lower shlex_split is_word c ≡ false
    pub no_outside : contains_any l2_fail_closed_markers c ≡ false
    pub no_network : contains_any l2_markers c ≡ false
    pub no_operator : contains_any shell_operators c ≡ false
    pub known :
        (is_safe_local_pytest_command lower shlex_split c ≡ true)
        ⊎ ((executable_of lower shlex_split is_word c ≡ "git")
            × ((is_new_branch lower shlex_split is_word (words c) ≡ true)
                ⊎ (is_add lower shlex_split is_word (words c) ≡ true)))
        ⊎ (executable_of lower shlex_split is_word c ≡ "snapshot")
        ⊎ (executable_of lower shlex_split is_word c ≡ "pwd")

  calm_parts :
      (c : String)
      → is_sensitive lower shlex_split is_word c ≡ false
      → (contains_any l3_phrase_markers c ≡ false)
        × (any_of
              (λ marker. one_of (normalized_command_tokens lower shlex_split c) marker)
              l3_token_markers
            ≡ false)
        × (contains_any sensitive_path_markers c ≡ false)
  unfolding is_sensitive
  calm_parts c h = three_false _ _ _ h

  plain_parts :
      (c : String)
      → needs_gate lower shlex_split is_word c ≡ false
      → (contains_any l2_fail_closed_markers c ≡ false)
        × (contains_any l2_markers c ≡ false)
        × (contains_any shell_operators c ≡ false)
  unfolding needs_gate
  plain_parts c h = three_false _ _ _ h

  command-Harmless :
      (c : String)
      → auto_approve_allowed (command_risk lower shlex_split is_word c) ≡ true
      → Harmless c
  unfolding command_risk
  command-Harmless c h =
      let executable = executable_of lower shlex_split is_word c in
      let (calm, ungated, plain, known) =
        ladder (is_sensitive lower shlex_split is_word c)
          (is_fail_closed lower shlex_split is_word c) (needs_gate lower shlex_split is_word c)
          (is_safe_local_pytest_command lower shlex_split c) (executable == "git")
          (is_new_branch lower shlex_split is_word (words c))
          (is_add lower shlex_split is_word (words c)) (executable == "snapshot")
          (executable == "pwd") h in
      record {
        no_phrase = (calm_parts c calm).0;
        no_token = (calm_parts c calm).1;
        no_path = (calm_parts c calm).2;
        not_closed = ungated;
        no_outside = (plain_parts c plain).0;
        no_network = (plain_parts c plain).1;
        no_operator = (plain_parts c plain).2;
        known = elim known [
          | inl test ↦ inl test
          | inr (inl (git, verb)) ↦ inr (inl ((eq_iff executable "git").0 git, verb))
          | inr (inr (inl snapshot)) ↦ inr (inr (inl ((eq_iff executable "snapshot").0 snapshot)))
          | inr (inr (inr pwd)) ↦ inr (inr (inr ((eq_iff executable "pwd").0 pwd)))
        ];
      }

  classify-cases :
      (c : String)
      → auto_approve_allowed (
          if c == "" then l2 else elim (classify_permissions_request c) [
            | some level ↦ level
            | none ↦ command_risk lower shlex_split is_word c
          ])
        ≡ true
      → AsksForFiles c ⊎ Harmless c
  classify-cases c h = elim (Bool-cases (c == "")) [
    | inl nothing ↦ let clash : false ≡ true = (rw nothing at h) in cc
    | inr something ↦ elim (Option-cases (classify_permissions_request c)) [
      | inl no_request ↦ inr (command-Harmless c (rw (something, no_request) at h))
      | inr (level, asked) ↦ inl (request-files c level asked (rw (something, asked) at h))
    ]
  ]

  -- When create_request approves a request at once, its command, in lower case and without white
  -- space around it, either asks for no permissions but fs.read and fs.write, or is a single plain
  -- command: it has no mark of a sensitive command, none of a network or system command, none that
  -- wants a gate and no operator of the shell, and it is a safe pytest call, git checkout -b, git
  -- add, snapshot or pwd, by the last part of its first word.
  pub approved_at_once :
      (now approval_id : String) (q : NewRequest) (f : ApprovalFiles)
      → (create_request lower shlex_split is_word now approval_id q f).0.status ≡ approved
      → AsksForFiles (strip (lower q.command)) ⊎ Harmless (strip (lower q.command))
  unfolding create_request new_approval classify_risk
  approved_at_once now approval_id q f h =
      classify-cases (strip (lower q.command))
        (approved_auto (auto_approve_allowed (classify_risk lower shlex_split is_word q.command)) h)
