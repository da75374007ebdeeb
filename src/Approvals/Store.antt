-- ===== src/Approvals/Store.antt =====
-- a_control_agent/storage/approvals_store.py. A record is the dict that the store writes; the two
-- entries that a record gets later are optional. A method takes the content of the store's two files
-- and gives its result and what it leaves. `now` is the time of the call, and the id of a request is
-- chosen by `uuid4`.
use Prim.Native.Char.{Char}
use codex_watchdog.Common.{
  String, Bool, true, false, Option, none, some, List, [], ◌∷◌, ◌++◌, ◌==◌, if◌then◌else◌, Result,
  Dict, get, put, values, keep,
}
use codex_watchdog.Common.Texts.{text_leb}
use codex_watchdog.Common.Values.{text_eq, option_eq}
use codex_watchdog.Approvals.Risk.{RiskLevel, auto_approve_allowed, classify_risk}

pub data Status : Type 0 where
  pending approved rejected : Status

pub record Approval : Type 0 where
  pub approval_id : String
  pub project_id : String
  pub thread_id : String
  pub risk_level : RiskLevel
  pub command : String
  pub reason : String
  pub alternative : String
  pub bridge_request_id : Option String
  pub bridge_request_id_type : Option String
  pub bridge_request_method : Option String
  pub requested_at : String
  pub status : Status
  pub decided_at : Option String
  pub decided_by : Option String
  pub decision_note : Option String
  pub callback_status : Option String
  pub callback_error : Option String
  pub callback_updated_at : Option String

-- The entries of the audit file.
pub data AuditEntry : Type 0 where
  approval_created : (ts approval_id : String) (risk_level : RiskLevel) (auto : Bool) → AuditEntry
  callback_status_updated :
      (ts approval_id callback_status : String) (callback_error : Option String) → AuditEntry
  approval_decided : (ts approval_id decision operator : String) → AuditEntry

pub record ApprovalFiles : Type 0 where
  pub approvals : Dict Approval
  pub audit : List AuditEntry

abbrev pub status_name : Status → String
status_name pending = "pending"
status_name approved = "approved"
status_name rejected = "rejected"

-- `if wanted: rows = [r for r in rows if field(r) == wanted]`
module _ (field : Approval → Option String) where
  unfoldable pub only : Option String → List Approval → List Approval
  only none rows = rows
  only (some wanted) rows =
      if wanted == "" then rows else keep (λ r. option_eq text_eq (field r) (some wanted)) rows

-- A stable sort by `requested_at`, the latest first.
unfoldable pub insert_latest : Approval → List Approval → List Approval
insert_latest r [] = r ∷ []
insert_latest r (x ∷ xs) =
    if text_leb x.requested_at r.requested_at then r ∷ x ∷ xs else x ∷ insert_latest r xs

unfoldable pub sort_latest : List Approval → List Approval
unfolding insert_latest
sort_latest [] = []
sort_latest (x ∷ xs) = insert_latest x (sort_latest xs)

unfoldable pub list_filtered :
    ApprovalFiles → (status project_id decided_by callback_status : Option String) → List Approval
unfolding only sort_latest
list_filtered f status project_id decided_by callback_status = sort_latest (
    only (λ r. r.callback_status) callback_status
      (only (λ r. r.decided_by) decided_by
        (only (λ r. some r.project_id) project_id
          (only (λ r. some (status_name r.status)) status (values f.approvals)))))

unfoldable pub get_approval : ApprovalFiles → (approval_id : String) → Option Approval
get_approval f approval_id = get approval_id f.approvals

-- The arguments of `create_request`.
pub record NewRequest : Type 0 where
  pub project_id : String
  pub thread_id : String
  pub command : String
  pub reason : String
  pub alternative : String
  pub bridge_request_id : Option String
  pub bridge_request_id_type : Option String
  pub bridge_request_method : Option String

module _ (lower : String → String) (shlex_split : String → Result (List String))
    (is_word : Char → Bool) where
  unfoldable pub new_approval : (now approval_id : String) → NewRequest → Approval
  unfolding classify_risk
  new_approval now approval_id q =
      let risk = classify_risk lower shlex_split is_word q.command in
      let auto = auto_approve_allowed risk in
      record {
        approval_id = approval_id;
        project_id = q.project_id;
        thread_id = q.thread_id;
        risk_level = risk;
        command = q.command;
        reason = q.reason;
        alternative = q.alternative;
        bridge_request_id = q.bridge_request_id;
        bridge_request_id_type = q.bridge_request_id_type;
        bridge_request_method = q.bridge_request_method;
        requested_at = now;
        status = if auto then approved else pending;
        decided_at = if auto then some now else none;
        decided_by = if auto then some "policy-auto" else none;
        decision_note = none;
        callback_status = none;
        callback_error = none;
        callback_updated_at = none;
      }

  unfoldable pub create_request :
      (now approval_id : String) → NewRequest → ApprovalFiles → Approval × ApprovalFiles
  unfolding new_approval
  create_request now approval_id q f =
      let r = new_approval now approval_id q in
      (
        r,
        record {
          approvals = put approval_id r f.approvals;
          audit =
              f.audit
              ++ approval_created now approval_id r.risk_level (auto_approve_allowed r.risk_level)
                ∷ [];
        },
      )

abbrev pub or_null : String → Option String
or_null error = if error == "" then none else some error

abbrev pub called_back : (now status error : String) → Approval → Approval
called_back now status error r = record r {
  callback_status = some status;
  callback_error = or_null error;
  callback_updated_at = some now;
}

-- `_update_callback_status`; `logged_at` is the time of the audit entry.
unfoldable pub update_callback_status :
    (now logged_at approval_id status error : String)
    → ApprovalFiles
    → Option Approval × ApprovalFiles
update_callback_status now logged_at approval_id status error f =
    elim (get approval_id f.approvals) [
      | none ↦ (none, f)
      | some r ↦ (
        some (called_back now status error r),
        record {
          approvals = put approval_id (called_back now status error r) f.approvals;
          audit =
              f.audit ++ callback_status_updated logged_at approval_id status (or_null error) ∷ [];
        },
      )
    ]

unfoldable pub mark_callback_deferred :
    (now logged_at approval_id error : String) → ApprovalFiles → Option Approval × ApprovalFiles
unfolding update_callback_status
mark_callback_deferred now logged_at approval_id error f =
    update_callback_status now logged_at approval_id "deferred" error f

unfoldable pub mark_callback_delivered :
    (now logged_at approval_id : String) → ApprovalFiles → Option Approval × ApprovalFiles
unfolding update_callback_status
mark_callback_delivered now logged_at approval_id f =
    update_callback_status now logged_at approval_id "delivered" "" f

abbrev pub is_undecided : Status → Bool
is_undecided pending = true
is_undecided _ = false

-- The status that a decision gives, if it is one.
abbrev pub decided_status : (decision : String) → Option Status
decided_status decision =
    if decision == "approve"
    then some approved
    else if decision == "reject"
    then some rejected
    else none

module _ (now decision operator note : String) where
  abbrev pub decided : Status → Approval → Approval
  decided status r = record r {
    status = status;
    decided_at = some now;
    decided_by = some operator;
    decision_note = if note == "" then r.decision_note else some note;
  }

  abbrev pub decide_with :
      (approval_id : String)
      → Option Status
      → Approval
      → ApprovalFiles
      → Option Approval × ApprovalFiles
  decide_with approval_id none r f = (none, f)
  decide_with approval_id (some status) r f = (
    some (decided status r),
    record {
      approvals = put approval_id (decided status r) f.approvals;
      audit = f.audit ++ approval_decided now approval_id decision operator ∷ [];
    },
  )

  unfoldable pub apply_decision :
      (approval_id : String) → ApprovalFiles → Option Approval × ApprovalFiles
  apply_decision approval_id f = elim (get approval_id f.approvals) [
    | none ↦ (none, f)
    | some r ↦
        if is_undecided r.status
        then decide_with approval_id (decided_status decision) r f
        else (none, f)
  ]
