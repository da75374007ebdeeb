-- ===== src/Approvals/Tests.antt =====
-- The theorems on approvals, applied to small commands. Here commands have no capitals and no quotes,
-- and a word of a command is anything in it.
use codex_watchdog.Common.{
  ◌&&◌, leb, String, ◌≡◌, refl, ◌↔◌, ◌⊎◌, Bool, true, false, none, some, List, [], value_error,
  Result, raise, get, put, keep, All,
}
use Prim.Native.Char.{Char, code}
use codex_watchdog.Common.Texts.{strip, is_space, lstrip, rstrip}
use codex_watchdog.Approvals.Splitting.{contains_command_word}
use codex_watchdog.Approvals.Risk.{
  l0, l1, l2, l3, classify_permissions_request, is_safe_local_pytest_command, classify_risk,
  split_command,
}
use codex_watchdog.Approvals.Store.{
  Approval, ApprovalFiles, NewRequest, create_request, new_approval, apply_decision, approved,
}
use codex_watchdog.Approvals.Harmless.{AsksForFiles, Harmless, approved_at_once}
use codex_watchdog.Approvals.Forms.{IsPytestCall}
use codex_watchdog.Approvals.Pytest.{Admissible, pytest_command_iff}
use codex_watchdog.Approvals.Decisions.{Stands, decides, here, step, decision-Stands}

abbrev as_it_is : String → String
as_it_is s = s

abbrev unquoted : String → Result (List String)
unquoted s = raise (value_error "No closing quotation")

abbrev small : Char → Bool
small c = leb 97 (code c) && leb (code c) 122

abbrev nobody : ApprovalFiles
nobody = record { approvals = []; audit = [] }

abbrev asking : String → NewRequest
asking command = record {
  project_id = "repo-a";
  thread_id = "thr_1";
  command = command;
  reason = "needed";
  alternative = "";
  bridge_request_id = none;
  bridge_request_id_type = none;
  bridge_request_method = none;
}

levels :
    (classify_risk as_it_is unquoted small "git add a.py" ≡ l1)
    × (classify_risk as_it_is unquoted small "git push origin" ≡ l3)
    × (classify_risk as_it_is unquoted small "permissions:fs.read, fs.write" ≡ l1)
    × (classify_risk as_it_is unquoted small "/tmp/evil/pwd" ≡ l0)
    × (classify_risk as_it_is unquoted small "pytest --junitxml=/tmp/out.xml" ≡ l0)
    × (classify_risk as_it_is unquoted small "pytest ../tests" ≡ l2)
unfolding classify_risk strip lstrip rstrip is_space classify_permissions_request keep
levels = (refl, refl, refl, refl, refl, refl)

abbrev adding : ApprovalFiles
adding = (create_request as_it_is unquoted small "t1" "appr_1" (asking "git add a.py") nobody).1

abbrev publishing : ApprovalFiles
publishing = (create_request as_it_is unquoted small "t1" "appr_1" (asking "npm publish") nobody).1

abbrev to_publish : Approval
to_publish = new_approval as_it_is unquoted small "t1" "appr_1" (asking "npm publish")

runs :
    ((create_request as_it_is unquoted small "t1" "appr_1" (asking "git add a.py") nobody).0.status
      ≡ approved)
    × (get "appr_1" publishing.approvals ≡ some to_publish)
    × (get "appr_1" nobody.approvals ≡ none)
unfolding create_request new_approval classify_risk strip lstrip rstrip is_space
    classify_permissions_request keep get put
runs = (refl, refl, refl)

approved_at_once_example :
    AsksForFiles (strip "git add a.py") ⊎ Harmless as_it_is unquoted small (strip "git add a.py")
approved_at_once_example =
    approved_at_once as_it_is unquoted small "t1" "appr_1" (asking "git add a.py") nobody runs.0

pytest_command_iff_example :
    (is_safe_local_pytest_command as_it_is unquoted "pytest -q tests" ≡ true) ↔ (
      (args : List String) × IsPytestCall as_it_is unquoted
        (split_command as_it_is unquoted "pytest -q tests")
        args
      × All (Admissible as_it_is unquoted) args)
pytest_command_iff_example = pytest_command_iff as_it_is unquoted "pytest -q tests"

-- Rejected, and then approved by another operator.
abbrev rejected_once : ApprovalFiles
rejected_once = (apply_decision "t2" "reject" "alice" "" "appr_1" publishing).1

abbrev approved_later : ApprovalFiles
approved_later = (apply_decision "t3" "approve" "bob" "" "appr_1" rejected_once).1

decision-Stands_example :
    (r' : Approval) × (get "appr_1" approved_later.approvals ≡ some r') × Stands to_publish r'
decision-Stands_example =
    decision-Stands as_it_is unquoted small "appr_1" to_publish
      (step (decides "t2" "reject" "alice" "" "appr_1")
        (step (decides "t3" "approve" "bob" "" "appr_1") here))
      runs.1

-- A marker is found as a word, behind a path or a separator, and not inside of a word or of a folder.
command_words :
    (contains_command_word small "ssh" "ls;ssh host" ≡ true)
    × (contains_command_word small "ssh" "(/usr/bin/ssh host" ≡ true)
    × (contains_command_word small "ssh" "ssh-keygen" ≡ true)
    × (contains_command_word small "ssh" "crash" ≡ false)
    × (contains_command_word small "ssh" "sshd" ≡ false)
    × (contains_command_word small "ssh" "/ssh" ≡ false)
    × (contains_command_word small "ssh" "a/b.ssh" ≡ false)
unfolding contains_command_word is_space
command_words = (refl, refl, refl, refl, refl, refl, refl)
