-- ===== src/Leases/Tests.antt =====
-- The theorems on the lease store, applied to a store with one command. The digest and the clock
-- are concrete: the digest keeps the text, and every text names the instant of its length.
use codex_watchdog.Leases.Operations.{
  requeue, Store, claim_command, expired_file, is_expired, expire_loop, expire_one,
}
use codex_watchdog.Leases.Replay.{replay_from, IsReplay}
use codex_watchdog.Common.{
  String, ◌≡◌, refl, inl, inr, none, some, List, [], ◌∷◌, arith, Error, Result, ok, raise, get,
}
use codex_watchdog.Common.Texts.{sort_texts, insert_text, strip}
use Prim.Native.String.{len}
use codex_watchdog.Leases.State.{
  LeaseState, LeaseFile, LeaseEvent, empty, Moment, claimed, parse_timestamp,
}
use codex_watchdog.Leases.Fencing.{Progress}
use codex_watchdog.Leases.Service.{Request, serve, serve-IsReplay, serve-Progress}
use codex_watchdog.Leases.Expiry.{Outcome, expired_file-Outcome}
use codex_watchdog.Leases.Guards.{Barred, Holds, stale_refused, claim_refused, fenced_forever}

abbrev digest : String → String
digest s = s

abbrev clock : String → Result Moment
clock s = ok (Moment.aware (len s))

abbrev held : LeaseState
held = record {
  command_id = "c";
  session_id = "session:repo-a";
  status = claimed;
  claim_seq = 2;
  worker_id = some "w2";
  lease_expires_at = some "t12";
  updated_at = "t0";
}

abbrev store : Store
store = record {
  file = record { next_event_seq = 1; commands = ("c", held) ∷ []; events = [] };
  session = none;
}

abbrev fresh : Store
fresh = record { file = empty; session = none }

abbrev requests : List Request
requests =
    Request.claim "c" "session:repo-a" "w1" "t0" "t12"
    ∷ Request.expire "t1234" "lease over"
    ∷ Request.claim "c" "session:repo-a" "w2" "t123456" "t12345678"
    ∷ Request.finish "c" "w1" 1 "command_executed" "t9" []
    ∷ Request.finish "c" "w2" 2 "command_executed" "t9" []
    ∷ []

empty-IsReplay : IsReplay empty
unfolding replay_from
empty-IsReplay = record { table = refl; numbered = refl }

serve-IsReplay_example : IsReplay (serve digest clock fresh requests).file
serve-IsReplay_example = serve-IsReplay digest clock fresh requests empty-IsReplay

serve-Progress_example :
    Progress store.file.commands (serve digest clock store requests).file.commands
serve-Progress_example = serve-Progress digest clock store requests

found : get "c" store.file.commands ≡ some held
unfolding get
found = refl

stale_refused_example : Barred digest store "c" "w1" 1 "t3" "t20" []
stale_refused_example = stale_refused digest store "c" held found "w1" 1 "t3" "t20" [] not_held
  where
    not_held : ¬ (Holds held "w1" 1)
    not_held h = omega (arith, h.2)

claim_refused_example :
    (e : Error) × (claim_command digest store "c" "session:repo-a" "w3" "t3" "t20"
      ≡ (raise e, store))
claim_refused_example =
    claim_refused digest store "c" held found "session:repo-a" "w3" "t3" "t20" (inr (inl refl))

fenced_forever_example : Barred digest (serve digest clock store requests) "c" "w1" 1 "t3" "t20" []
fenced_forever_example =
    fenced_forever digest clock store requests "c" "w1" 1 held "t3" "t20" [] found (omega arith)

abbrev late : String
late = "a late time"

abbrev swept : LeaseFile × List LeaseEvent
swept = requeue late "lease over" "c" held store.file

time_read : parse_timestamp clock late ≡ ok (len late)
unfolding parse_timestamp strip
time_read = refl

pass_done : expired_file clock store.file late "lease over" ≡ ok swept
unfolding expired_file parse_timestamp strip expire_loop expire_one is_expired sort_texts
    insert_text get
pass_done = refl

expired_file-Outcome_example :
    Outcome clock (len late) late "lease over" held (get "c" swept.0.commands)
expired_file-Outcome_example =
    expired_file-Outcome clock (len late) late "lease over" store.file "c" held time_read pass_done
      found
