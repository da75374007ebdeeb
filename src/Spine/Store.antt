-- ===== src/Spine/Store.antt =====
-- session_spine/store.py. Of a projection, a progress view, a fact and an approval, the store reads the
-- fields that stand here; `rest` is what else they hold. `sanitize` is sanitize_session_summary, and
-- the two fingerprints stand for SHA-256 of the canonical JSON of the whole snapshot and of the facts.
-- A method that only reads gives its result here; it leaves the file that `read_file` gives.
use codex_watchdog.Common.{
  ℕ, ◌+◌, String, Option, none, some, List, [], ◌∷◌, if◌then◌else◌, Dict, get, put, values,
}
use codex_watchdog.Common.Texts.{format, show}
use codex_watchdog.Common.Values.{Value, text_eq, option_eq}
use codex_watchdog.Policy.Decisions.{first_text}

pub record Projection : Type 0 where
  pub thread_id : String
  pub native_thread_id : Option String
  pub headline : String
  pub rest : Dict Value

pub record ProgressView : Type 0 where
  pub native_thread_id : Option String
  pub summary : String
  pub rest : Dict Value

-- What a caller of `put` has gathered of a session.
pub record Snapshot : Type 0 where
  pub session : Projection
  pub progress : ProgressView
  pub facts : List (Dict Value)
  pub approval_queue : List (Dict Value)

pub record SpineRecord : Type 0 where
  pub project_id : String
  pub thread_id : String
  pub native_thread_id : Option String
  pub session_seq : ℕ
  pub fact_snapshot_version : String
  pub last_refreshed_at : String
  pub last_local_manual_activity_at : Option String
  pub content : Snapshot
  pub snapshot_fingerprint : Option String
  pub facts_fingerprint : Option String

-- `PersistedSessionSpineFile`
abbrev pub SpineFile : Type 0
SpineFile = Dict SpineRecord

unfoldable pub native_thread_of : SpineRecord → Option String
unfolding first_text
native_thread_of r = first_text (
    r.native_thread_id ∷ r.content.session.native_thread_id ∷ r.content.progress.native_thread_id
    ∷ [])

-- The arguments of `put`, with the time already chosen.
pub record PutRequest : Type 0 where
  pub project_id : String
  pub content : Snapshot
  pub last_refreshed_at : String
  pub last_local_manual_activity_at : Option String

module _ (sanitize : String → String) where
  abbrev pub sanitized_record : SpineRecord → SpineRecord
  sanitized_record r = record r {
    content = record (r.content) {
      session = record (r.content.session) { headline = sanitize r.content.session.headline };
      progress = record (r.content.progress) { summary = sanitize r.content.progress.summary };
    };
  }

  -- `_read`, of a file that is not empty: the headlines and summaries are sanitized.
  unfoldable pub read_file : SpineFile → SpineFile
  read_file [] = []
  read_file ((project_id, r) ∷ sessions) = (project_id, sanitized_record r) ∷ read_file sessions

  unfoldable pub get_session : SpineFile → (project_id : String) → Option SpineRecord
  unfolding read_file
  get_session f project_id = get project_id (read_file f)

  unfoldable pub first_of_thread :
      (native_thread_id : String) → List SpineRecord → Option SpineRecord
  unfolding native_thread_of
  first_of_thread native_thread_id [] = none
  first_of_thread native_thread_id (r ∷ rs) =
      let later = first_of_thread native_thread_id rs in
      if option_eq text_eq (native_thread_of r) (some native_thread_id) then some r else later

  unfoldable pub get_by_native_thread : SpineFile → (native_thread_id : String) → Option SpineRecord
  unfolding read_file first_of_thread
  get_by_native_thread f native_thread_id = first_of_thread native_thread_id (values (read_file f))

  unfoldable pub list_sessions : SpineFile → List SpineRecord
  unfolding read_file
  list_sessions f = values (read_file f)

module _ (sanitize : String → String) (snapshot_print : Snapshot → String)
    (facts_print : List (Dict Value) → String) where
  unfoldable pub next_session_seq : Option SpineRecord → Snapshot → ℕ
  next_session_seq none s = 1
  next_session_seq (some existing) s =
      if option_eq text_eq existing.snapshot_fingerprint (some (snapshot_print s))
      then existing.session_seq
      else existing.session_seq + 1

  unfoldable pub next_version : Option SpineRecord → Snapshot → String
  unfolding format show
  next_version none s = "fact-v1"
  next_version (some existing) s =
      if option_eq text_eq existing.facts_fingerprint (some (facts_print s.facts))
      then existing.fact_snapshot_version
      else format ("fact-v" ∷ show (existing.session_seq + 1) ∷ [])

  unfoldable pub spine_record : Option SpineRecord → PutRequest → SpineRecord
  unfolding next_session_seq next_version
  spine_record existing q = record {
    project_id = q.project_id;
    thread_id = q.content.session.thread_id;
    native_thread_id = q.content.session.native_thread_id;
    session_seq = next_session_seq existing q.content;
    fact_snapshot_version = next_version existing q.content;
    last_refreshed_at = q.last_refreshed_at;
    last_local_manual_activity_at = q.last_local_manual_activity_at;
    content = q.content;
    snapshot_fingerprint = some (snapshot_print q.content);
    facts_fingerprint = some (facts_print q.content.facts);
  }

  unfoldable pub put_session : PutRequest → SpineFile → SpineRecord × SpineFile
  unfolding read_file spine_record
  put_session q f =
      let stored = read_file sanitize f in
      let r = spine_record (get q.project_id stored) q in (r, put q.project_id r stored)

  -- The file after a sequence of puts.
  unfoldable pub puts : List PutRequest → SpineFile → SpineFile
  unfolding put_session
  puts [] f = f
  puts (q ∷ qs) f = puts qs (put_session q f).1
