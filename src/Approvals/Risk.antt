-- ===== src/Approvals/Risk.antt =====
-- a_control_agent/risk/classifier.py. `lower` stands for `str.lower`, `shlex_split` for `shlex.split`,
-- which may raise, and `is_word` for the class `\w` of a regular expression.
use Prim.Native.Char.{Char}
use codex_watchdog.Common.{
  String, Bool, true, false, ◌&&◌, ◌||◌, not, Option, none, some, List, [], ◌∷◌, map, ◌==◌,
  if◌then◌else◌, Result, ok, raise,
}
use codex_watchdog.Common.Texts.{strip, before_char, one_of}
use text.Mathlib.Text.{starts_with}
use Prim.Native.String.{len, slice}
use codex_watchdog.Approvals.Splitting.{
  contains_any, contains_command_word, starts_with_any, after_last, split_char, strip_dashes, words,
  is_plain_path, has_drive,
}

pub data RiskLevel : Type 0 where
  l0 l1 l2 l3 : RiskLevel

abbrev pub auto_approve_allowed : RiskLevel → Bool
auto_approve_allowed l0 = true
auto_approve_allowed l1 = true
auto_approve_allowed l2 = false
auto_approve_allowed l3 = false

abbrev pub safe_file_permissions : List String
safe_file_permissions = "fs.read" ∷ "fs.write" ∷ []

abbrev pub pytest_path_flags : List String
pytest_path_flags = "--rootdir" ∷ "--basetemp" ∷ "--confcutdir" ∷ "-c" ∷ []

abbrev pub l3_phrase_markers : List String
l3_phrase_markers =
    "rm -rf" ∷ "git push" ∷ "绕过" ∷ "绕过审批" ∷ "sandbox off" ∷ "sudo " ∷ "chmod 777" ∷ "/etc/"
    ∷ "launchctl" ∷ []

abbrev pub l3_token_markers : List String
l3_token_markers =
    "publish" ∷ "deploy" ∷ "release" ∷ "token" ∷ "secret" ∷ "credential" ∷ "credentials."
    ∷ "api_key" ∷ "openai_api_key" ∷ "password" ∷ []

abbrev pub sensitive_path_markers : List String
sensitive_path_markers =
    "~/.ssh" ∷ "/.ssh/" ∷ ".aws/credentials" ∷ ".kube/config" ∷ "/proc/self/environ"
    ∷ "/proc/self/cmdline" ∷ "id_rsa" ∷ "id_ed25519" ∷ ".pypirc" ∷ ".npmrc" ∷ []

abbrev pub fail_closed_network_commands : List String
fail_closed_network_commands =
    "ssh" ∷ "ssh-keyscan" ∷ "scp" ∷ "rsync" ∷ "ftp" ∷ "telnet" ∷ "ping" ∷ "dig" ∷ "nslookup" ∷ "nc"
    ∷ "netcat" ∷ []

abbrev pub fail_closed_system_commands : List String
fail_closed_system_commands =
    "systemctl" ∷ "service" ∷ "rc-service" ∷ "systemd-run" ∷ "shutdown" ∷ "reboot" ∷ "poweroff"
    ∷ "halt" ∷ []

abbrev pub l2_fail_closed_markers : List String
l2_fail_closed_markers =
    "../" ∷ "..\\" ∷ "http://" ∷ "https://" ∷ "network." ∷ "permissions:network" ∷ []

abbrev pub l2_markers : List String
l2_markers = "pip install" ∷ "npm install" ∷ "pnpm " ∷ "yarn " ∷ "curl " ∷ "wget " ∷ []

-- What the shell reads as more than one plain command.
abbrev pub shell_operators : List String
shell_operators =
    "&&" ∷ "||" ∷ ";" ∷ "|" ∷ "&" ∷ "\n" ∷ "\r" ∷ "\t" ∷ "\u{b}" ∷ "\u{c}" ∷ "$(" ∷ "<(" ∷ ">("
    ∷ "`" ∷ []

module _ {A : Type 0} (p : A → Bool) where
  -- `any(p(x) for x in xs)`
  unfoldable pub any_of : List A → Bool
  any_of [] = false
  any_of (x ∷ xs) = p x || any_of xs

  -- `all(p(x) for x in xs)`
  unfoldable pub all_of : List A → Bool
  all_of [] = true
  all_of (x ∷ xs) = p x && all_of xs

unfoldable pub permissions_risk : List String → RiskLevel
unfolding any_of all_of one_of
permissions_risk permissions =
    if any_of (λ item. item == "") permissions
    then l2
    else if any_of (λ item. starts_with item "credentials.") permissions
    then l3
    else if any_of (λ item. starts_with item "network.") permissions
    then l2
    else if all_of (one_of safe_file_permissions) permissions
    then l1
    else l2

unfoldable pub permissions_of : String → List String
unfolding split_char strip
permissions_of raw = map strip (split_char b',' raw)

unfoldable pub classify_permissions_request : String → Option RiskLevel
unfolding permissions_risk permissions_of
classify_permissions_request command =
    let raw = slice command 12 (len command) in
    if not (starts_with command "permissions:")
    then none
    else if raw == ""
    then some l2
    else some (permissions_risk (permissions_of raw))

module _ (lower : String → String) (shlex_split : String → Result (List String)) where
  unfoldable pub split_command : String → List String
  unfolding words
  split_command command = elim (shlex_split command) [
    | ok tokens ↦ tokens
    | raise error ↦ words command
  ]

  unfoldable pub normalized_command_tokens : String → List String
  unfolding split_command before_char strip_dashes
  normalized_command_tokens command =
      map (λ token. lower (strip_dashes (before_char b'=' token))) (split_command command)

  unfoldable pub is_path_boundary_escape : String → Bool
  unfolding strip has_drive
  is_path_boundary_escape arg =
      let normalized = lower (strip arg) in
      if normalized == ""
      then false
      else if starts_with normalized "/" || starts_with normalized "~"
      then true
      else if has_drive normalized
      then true
      else normalized == ".."
        || normalized == "."
        || starts_with normalized "../"
        || starts_with normalized "..\\"

  -- The arguments of a pytest call, if the tokens are one.
  unfoldable pub pytest_args : List String → Option (List String)
  unfolding after_last
  pytest_args [] = none
  pytest_args (first ∷ rest) =
      let executable = lower (after_last b'/' first) in
      if executable == "pytest"
      then some rest
      else if executable == "python" || executable == "python3"
      then after_two "-m" "pytest" rest
      else if executable == "uv"
      then after_two "run" "pytest" rest
      else none
    where
      after_two : String → String → List String → Option (List String)
      after_two a b (x ∷ y ∷ args) = if x == a && y == b then some args else none
      after_two a b _ = none

  -- The loop over the arguments, with `expect_flag_value`.
  unfoldable pub safe_args : (expect_flag_value : Bool) → List String → Bool
  unfolding one_of starts_with_any is_path_boundary_escape is_plain_path
  safe_args expect_flag_value [] = not expect_flag_value
  safe_args expect_flag_value (arg ∷ args) =
      let flagged = safe_args true args in
      let next = safe_args false args in
      if expect_flag_value
      then false
      else if one_of pytest_path_flags arg
      then flagged
      else if starts_with_any ("--rootdir=" ∷ "--basetemp=" ∷ "--confcutdir=" ∷ "-c=" ∷ []) arg
      then false
      else if is_path_boundary_escape arg
      then false
      else if not (starts_with arg "-") && not (is_plain_path arg)
      then false
      else next

  unfoldable pub is_safe_local_pytest_command : String → Bool
  unfolding split_command pytest_args safe_args
  is_safe_local_pytest_command command = elim (pytest_args (split_command command)) [
    | none ↦ false
    | some args ↦ safe_args false args
  ]

module _ (lower : String → String) (shlex_split : String → Result (List String))
    (is_word : Char → Bool) where
  abbrev pub head_of : List String → String
  head_of [] = ""
  head_of (x ∷ xs) = x

  abbrev pub tail_of : List String → List String
  tail_of [] = []
  tail_of (x ∷ xs) = xs

  -- `len(parts) >= 3 and parts[1] == "checkout" and parts[2] == "-b"`
  abbrev pub is_new_branch : List String → Bool
  is_new_branch (git ∷ verb ∷ option ∷ rest) = verb == "checkout" && option == "-b"
  is_new_branch _ = false

  -- `len(parts) >= 2 and parts[1] == "add"`
  abbrev pub is_add : List String → Bool
  is_add (git ∷ verb ∷ rest) = verb == "add"
  is_add _ = false

  unfoldable pub executable_of : String → String
  unfolding words after_last
  executable_of c = after_last b'/' (head_of (words c))

  unfoldable pub is_sensitive : String → Bool
  unfolding contains_any any_of one_of normalized_command_tokens
  is_sensitive c =
      contains_any l3_phrase_markers c
      || any_of (λ marker. one_of (normalized_command_tokens lower shlex_split c) marker)
          l3_token_markers
      || contains_any sensitive_path_markers c

  unfoldable pub is_fail_closed : String → Bool
  unfolding one_of any_of words executable_of contains_command_word
  is_fail_closed c =
      one_of fail_closed_network_commands (executable_of c)
      || one_of fail_closed_system_commands (executable_of c)
      || any_of (λ marker. contains_command_word is_word marker c) fail_closed_network_commands
      || any_of (λ marker. contains_command_word is_word marker c) fail_closed_system_commands
      || executable_of c == "init" && any_of (one_of ("0" ∷ "6" ∷ [])) (tail_of (words c))
      || contains_command_word is_word "init 0" c
      || contains_command_word is_word "init 6" c

  unfoldable pub needs_gate : String → Bool
  unfolding contains_any
  needs_gate c =
      contains_any l2_fail_closed_markers c
      || contains_any l2_markers c
      || contains_any shell_operators c

  -- `classify_risk` of a command that is not empty and asks for no permissions. Guards that stand
  -- next to each other and have one answer are one test here.
  unfoldable pub command_risk : String → RiskLevel
  unfolding is_sensitive is_fail_closed needs_gate is_safe_local_pytest_command executable_of words
  command_risk c =
      let executable = executable_of c in
      let parts = words c in
      if is_sensitive c
      then l3
      else if is_fail_closed c
      then l2
      else if needs_gate c
      then l2
      else if is_safe_local_pytest_command lower shlex_split c
      then l0
      else if executable == "git" && is_new_branch parts
      then l1
      else if executable == "git" && is_add parts
      then l1
      else if executable == "snapshot"
      then l1
      else if executable == "pwd"
      then l0
      else l2

  unfoldable pub classify_risk : (command : String) → RiskLevel
  unfolding strip classify_permissions_request command_risk
  classify_risk command =
      let c = strip (lower command) in
      if c == ""
      then l2
      else elim (classify_permissions_request c) [ some level ↦ level | none ↦ command_risk c ]
