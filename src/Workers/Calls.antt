-- ===== src/Workers/Calls.antt =====
-- The nine methods of the service as one type of calls, and sequences of calls.
use codex_watchdog.Session.Records.{StoreFile}
use codex_watchdog.Workers.Models.{
  ExecutionRequest, Lifecycle, request, start, heartbeat, publish, complete, fail, cancel, consume,
  reject,
}
use codex_watchdog.Workers.Record.{Worker}
use codex_watchdog.Common.{String, List, [], ◌∷◌, ok, Dict}
use codex_watchdog.Workers.Service.{
  Run, next, request_worker, record_started, record_heartbeat, record_summary_published,
  record_completed, record_failed, record_cancelled, consume_result, reject_result,
}

pub data Act : Type 0 where
  requesting : ExecutionRequest → Act
  starting : (worker_runtime_contract : Dict String) → Act
  beating : Dict String → Act
  publishing : (summary_ref : String) → Act
  completing :
      (result_summary_ref : String) (artifact_refs : List String)
      (input_contract_hash result_hash : String)
      → Act
  failing : (reason : String) → Act
  cancelling : (reason : String) → Act
  consuming : (decision_id : String) → Act
  rejecting : (reason : String) → Act

abbrev pub event_of_act : Act → Lifecycle
event_of_act (requesting r) = request
event_of_act (starting contract) = start
event_of_act (beating beat) = heartbeat
event_of_act (publishing summary) = publish
event_of_act (completing summary artifacts input result) = complete
event_of_act (failing reason) = fail
event_of_act (cancelling reason) = cancel
event_of_act (consuming decision_id) = consume
event_of_act (rejecting reason) = reject

-- A call whose result is not looked at.
abbrev pub discard : {A : Type 0} → Run A → Run (Unit {0})
discard m f = next (λ a g. (ok tt, g)) (m f)

module _ (digest : String → String) (utcnow : String) where
  unfoldable pub perform : Worker → Act → Run (Unit {0})
  unfolding request_worker record_started record_heartbeat record_summary_published record_completed
      record_failed record_cancelled consume_result reject_result
  perform w (requesting r) = discard (request_worker digest utcnow w r)
  perform w (starting contract) = record_started digest utcnow w contract
  perform w (beating beat) = record_heartbeat digest utcnow w beat
  perform w (publishing summary) = record_summary_published digest utcnow w summary
  perform w (completing summary artifacts input result) =
      discard (record_completed digest utcnow w summary artifacts input result)
  perform w (failing reason) = record_failed digest utcnow w reason
  perform w (cancelling reason) = record_cancelled digest utcnow w reason
  perform w (consuming decision_id) = consume_result digest utcnow w decision_id
  perform w (rejecting reason) = reject_result digest utcnow w reason

  -- The file after a sequence of calls, each of which may be refused or raise.
  unfoldable pub perform_all : StoreFile → List (Worker × Act) → StoreFile
  unfolding perform
  perform_all f [] = f
  perform_all f ((w, a) ∷ calls) = perform_all (perform w a f).1 calls
