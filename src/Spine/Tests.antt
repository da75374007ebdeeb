-- ===== src/Spine/Tests.antt =====
-- The theorems on the session spine, applied to one session. The fingerprints count the facts.
use codex_watchdog.Common.Texts.{digits, format, show}
use codex_watchdog.Common.{String, ◌≡◌, refl, none, some, List, [], ◌∷◌, Dict, get, put, length}
use codex_watchdog.Common.Values.{Value, option_eq}
use codex_watchdog.Outbox.Records.{fact_snapshot_order}
use codex_watchdog.Spine.Store.{
  Snapshot, SpineRecord, PutRequest, read_file, put_session, puts, spine_record, next_session_seq,
  next_version,
}
use codex_watchdog.Spine.Versions.{version, order-version, Follows, facts_move_on}

abbrev as_it_is : String → String
as_it_is s = s

abbrev count_facts : List (Dict Value) → String
count_facts facts = show (length facts)

abbrev count_all : Snapshot → String
count_all s = count_facts s.facts

abbrev view : List (Dict Value) → Snapshot
view facts = record {
  session = record {
    thread_id = "thr_1";
    native_thread_id = none;
    headline = "working";
    rest = [];
  };
  progress = record { native_thread_id = none; summary = "editing"; rest = [] };
  facts = facts;
  approval_queue = [];
}

abbrev request_with : List (Dict Value) → PutRequest
request_with facts = record {
  project_id = "repo-a";
  content = view facts;
  last_refreshed_at = "2026-04-07T00:00:00Z";
  last_local_manual_activity_at = none;
}

abbrev before : List PutRequest
before = request_with [] ∷ request_with ([] ∷ []) ∷ []

abbrev stored : SpineRecord
stored = record {
  project_id = "repo-a";
  thread_id = "thr_1";
  native_thread_id = none;
  session_seq = 2;
  fact_snapshot_version = "fact-v2";
  last_refreshed_at = "2026-04-07T00:00:00Z";
  last_local_manual_activity_at = none;
  content = view ([] ∷ []);
  snapshot_fingerprint = some "1";
  facts_fingerprint = some "1";
}

is_stored : get "repo-a" (puts as_it_is count_all count_facts before []) ≡ some stored
unfolding puts put_session read_file spine_record next_session_seq next_version get put format show
    digits option_eq
is_stored = refl

order-version_example : fact_snapshot_order (version 12) ≡ (12, version 12)
order-version_example = order-version 12

facts_move_on_example :
    Follows as_it_is count_all count_facts stored
      (put_session as_it_is count_all count_facts
        (request_with ([] ∷ [] ∷ []))
        (puts as_it_is count_all count_facts before [])).0
facts_move_on_example =
    facts_move_on as_it_is count_all count_facts (λ s t h. h) before (request_with ([] ∷ [] ∷ []))
      stored is_stored
