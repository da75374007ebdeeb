-- ===== src/Approvals/Decisions.antt =====
-- A request of approvals_store.py is decided at most once. The store's calls are a step relation:
-- `uuid4` gives a new request an id that the table has not.
use Prim.Native.Char.{Char}
use codex_watchdog.Common.{
  String, ◌≡◌, refl, sym, ap, ◌∙◌, inl, inr, Bool, true, false, Option, none, some, List, arith,
  ◌==◌, eq_iff, Bool-cases, Option-cases, Result, Dict, get, put, get-put, get-put_ne,
}
use codex_watchdog.Approvals.Store.{
  Approval, ApprovalFiles, NewRequest, Status, create_request, new_approval, called_back,
  update_callback_status, apply_decision, decide_with, decided, decided_status, is_undecided,
}

-- What a call leaves of a request: who asked for what, and a decision that was made.
pub record Stands (r r' : Approval) : Type 0 where
  pub same_command : r'.command ≡ r.command
  pub same_risk : r'.risk_level ≡ r.risk_level
  pub same_project : r'.project_id ≡ r.project_id
  pub decision :
      is_undecided r.status ≡ false
      → (r'.status ≡ r.status)
        × (r'.decided_at ≡ r.decided_at)
        × (r'.decided_by ≡ r.decided_by)
        × (r'.decision_note ≡ r.decision_note)

Stands-refl : (r : Approval) → Stands r r
Stands-refl r = record {
  same_command = refl;
  same_risk = refl;
  same_project = refl;
  decision = λ h. (refl, refl, refl, refl);
}

Stands-trans : {a b c : Approval} → Stands a b → Stands b c → Stands a c
Stands-trans {a} {b} {c} p q = record {
  same_command = q.same_command ∙ p.same_command;
  same_risk = q.same_risk ∙ p.same_risk;
  same_project = q.same_project ∙ p.same_project;
  decision = λ h.
      let (status, at_time, by_whom, note) = p.decision h in
      let (status', at_time', by_whom', note') = q.decision (ap is_undecided status ∙ h) in
      (status' ∙ status, at_time' ∙ at_time, by_whom' ∙ by_whom, note' ∙ note);
}

module _ (lower : String → String) (shlex_split : String → Result (List String))
    (is_word : Char → Bool) where
  infix 4 ◌⟶◌
  pub data ◌⟶◌ : ApprovalFiles → ApprovalFiles → Type 0 where
    creates :
        {f : ApprovalFiles} (now approval_id : String) (q : NewRequest)
        → get approval_id f.approvals ≡ none
        → f ⟶ (create_request lower shlex_split is_word now approval_id q f).1
    decides :
        {f : ApprovalFiles} (now decision operator note approval_id : String)
        → f ⟶ (apply_decision now decision operator note approval_id f).1
    calls_back :
        {f : ApprovalFiles} (now logged_at approval_id status error : String)
        → f ⟶ (update_callback_status now logged_at approval_id status error f).1

  infix 4 ◌⟶*◌
  pub data ◌⟶*◌ : ApprovalFiles → ApprovalFiles → Type 0 where
    here : {f : ApprovalFiles} → f ⟶* f
    step : {f g h : ApprovalFiles} → f ⟶ g → g ⟶* h → f ⟶* h

  abbrev StandsIn : String → Approval → Dict Approval → Type 0
  StandsIn k r d = (r' : Approval) × (get k d ≡ some r') × Stands r r'

  some-inj : {x y : Approval} → some x ≡ some y → x ≡ y
  some-inj h = ground arith

  -- A write leaves every request that it leaves in place, and what it writes must stand.
  put-StandsIn :
      (f : ApprovalFiles) (j : String) (r' : Approval)
      → ((r : Approval) → get j f.approvals ≡ some r → Stands r r')
      → (k : String) (r : Approval) → get k f.approvals ≡ some r
      → StandsIn k r (put j r' f.approvals)
  put-StandsIn f j r' stands k r found = elim (Bool-cases (j == k)) [
    | inl same ↦ (
      r',
      get-put j k r' f.approvals ∙ rw same refl,
      stands r (ap (λ i. get i f.approvals) ((eq_iff j k).0 same) ∙ found),
    )
    | inr other ↦ (r, get-put_ne j k r' f.approvals other ∙ found, Stands-refl r)
  ]

  stored-Stands :
      (f : ApprovalFiles) (j : String) (x r' : Approval)
      → get j f.approvals ≡ some x
      → Stands x r'
      → (r : Approval) → get j f.approvals ≡ some r
      → Stands r r'
  stored-Stands f j x r' there stands r h = rw (← (some-inj (sym there ∙ h))) stands

  called_back-Stands :
      (now status error : String) (x : Approval) → Stands x (called_back now status error x)
  called_back-Stands now status error x = record {
    same_command = refl;
    same_risk = refl;
    same_project = refl;
    decision = λ h. (refl, refl, refl, refl);
  }

  decided-Stands :
      (now decision operator note : String) (status : Status) (x : Approval)
      → is_undecided x.status ≡ true
      → Stands x (decided now decision operator note status x)
  decided-Stands now decision operator note status x undecided = record {
    same_command = refl;
    same_risk = refl;
    same_project = refl;
    decision = λ h. cc;
  }

  decide-StandsIn :
      (f : ApprovalFiles) (now decision operator note approval_id : String) (x : Approval)
      → get approval_id f.approvals ≡ some x
      → is_undecided x.status ≡ true
      → (to : Option Status) (k : String) (r : Approval) → get k f.approvals ≡ some r
      → StandsIn k r (decide_with now decision operator note approval_id to x f).1.approvals
  decide-StandsIn f now decision operator note approval_id x there undecided none k r found =
      (r, found, Stands-refl r)
  decide-StandsIn f now decision operator note approval_id x there undecided (some status) k r
        found =
      put-StandsIn f approval_id (decided now decision operator note status x)
        (stored-Stands f approval_id x _ there
          (decided-Stands now decision operator note status x undecided))
        k r found

  step-StandsIn :
      {f g : ApprovalFiles}
      → f ⟶ g
      → (k : String) (r : Approval) → get k f.approvals ≡ some r
      → StandsIn k r g.approvals
  unfolding create_request update_callback_status apply_decision
  step-StandsIn {f} (creates now approval_id q fresh) k r found =
      put-StandsIn f approval_id (new_approval lower shlex_split is_word now approval_id q)
        (λ x there. cc) k r found
  step-StandsIn {f} (calls_back now logged_at approval_id status error) k r found =
      elim (Option-cases (get approval_id f.approvals)) [
        | inl missing ↦ rw (update_callback_status, missing) (r, found, Stands-refl r)
        | inr (x, there) ↦
            rw (update_callback_status, there)
              (put-StandsIn f approval_id (called_back now status error x)
                (stored-Stands f approval_id x _ there (called_back-Stands now status error x)) k r
                found)
      ]
  step-StandsIn {f} (decides now decision operator note approval_id) k r found =
      elim (Option-cases (get approval_id f.approvals)) [
        | inl missing ↦ rw (apply_decision, missing) (r, found, Stands-refl r)
        | inr (x, there) ↦ elim (Bool-cases (is_undecided x.status)) [
          | inr done ↦ rw (apply_decision, there, done) (r, found, Stands-refl r)
          | inl undecided ↦
              rw (apply_decision, there, undecided)
                (decide-StandsIn f now decision operator note approval_id x there undecided
                  (decided_status decision) k r found)
        ]
      ]

  -- Through any sequence of calls of the approvals store, each new request with an id that the
  -- store has not, a request stays in the store with its command, risk level and project, and once
  -- it is approved or rejected its status, the time, the operator and the note of the decision do
  -- not change.
  pub decision-Stands :
      {f g : ApprovalFiles} (k : String) (r : Approval)
      → f ⟶* g
      → get k f.approvals ≡ some r
      → (r' : Approval) × (get k g.approvals ≡ some r') × Stands r r'
  decision-Stands k r here found = (r, found, Stands-refl r)
  decision-Stands k r (step first rest) found =
      let (r1, found1, stands1) = step-StandsIn first k r found in
      let (r2, found2, stands2) = decision-Stands k r1 rest found1 in
      (r2, found2, Stands-trans stands1 stands2)
