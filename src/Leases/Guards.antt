-- ===== src/Leases/Guards.antt =====
-- What the guards of the store refuse. A refused call leaves the store as it was.
use codex_watchdog.Common.{
  ℕ, ◌<◌, String, ◌≡◌, refl, ◌≢◌, ◌⊎◌, inl, inr, true, some, List, [], ◌∷◌, arith, ◌==◌, eq_iff,
  nat_eq, Bool-cases, Option-cases, Error, value_error, Result, raise, Dict, get,
}
use codex_watchdog.Common.Texts.{format}
use codex_watchdog.Common.Values.{Value, text_eq, option_eq, option_eq-some}
use mathlib.Core.Path.{subst}
use codex_watchdog.Leases.State.{claimed, is_claimed, is_terminal, LeaseState, Moment}
use codex_watchdog.Leases.Operations.{
  Store, require_current_claim, next_claim_seq, claimed_file, renewed_file, terminal_file,
  result_event_type, commit, claim_command, renew_lease, record_terminal_result,
}
use codex_watchdog.Leases.Fencing.{Advances}
use codex_watchdog.Leases.Service.{Request, serve, serve-Progress}

abbrev pub Holds : LeaseState → String → ℕ → Type 0
Holds st worker_id claim_seq =
    (st.status ≡ claimed) × (st.worker_id ≡ some worker_id) × (st.claim_seq ≡ claim_seq)

abbrev pub stale : String → Error
stale command_id = value_error (format ("stale claim for " ∷ command_id ∷ []))

-- A renewal and both results of worker `w` under claim `n` raise, and leave the store as it was.
abbrev pub Barred :
    (String → String) → Store → String → String → ℕ → String → String → Dict Value → Type 0
Barred digest s k w n at expires payload =
    (renew_lease digest s k w n at expires ≡ (raise (stale k), s))
    × (record_terminal_result digest s k w n "command_executed" at payload ≡ (raise (stale k), s))
    × (record_terminal_result digest s k w n "command_failed" at payload ≡ (raise (stale k), s))

require-stale :
    (st : LeaseState) (k w : String) (n : ℕ)
    → ¬ (Holds st w n)
    → require_current_claim (some st) k w n ≡ raise (stale k)
unfolding require_current_claim
require-stale st k w n h = elim (Bool-cases (is_claimed st.status)) [
  | inr off ↦ rw off refl
  | inl on ↦ elim (Bool-cases (option_eq text_eq st.worker_id (some w))) [
    | inr other ↦ rw (on, other) refl
    | inl mine ↦ elim (Bool-cases (nat_eq st.claim_seq n)) [
      | inr old ↦ rw (on, mine, old) refl
      | inl same ↦ absurd (h (ground arith, option_eq-some st.worker_id w mine, ground arith))
    ]
  ]
]

module _ (digest : String → String) (s : Store) (k : String) (st : LeaseState)
    (found : get k s.file.commands ≡ some st) where
  -- A worker that does not hold a stored command's current claim is refused with an error by
  -- renew_lease and record_terminal_result, and the store stays as it was.
  pub stale_refused :
      (w : String) (n : ℕ) (at expires : String) (payload : Dict Value)
      → ¬ (Holds st w n)
      → Barred digest s k w n at expires payload
  unfolding renew_lease record_terminal_result commit renewed_file terminal_file result_event_type
  stale_refused w n at expires payload h = (
    rw (found, require-stale st k w n h) refl,
    rw (found, require-stale st k w n h) refl,
    rw (found, require-stale st k w n h) refl,
  )

  -- claim_command of a stored command that is of another session, claimed, or finished raises and
  -- leaves the store as it was.
  pub claim_refused :
      (sid w at expires : String)
      → (st.session_id ≢ sid) ⊎ ((is_claimed st.status ≡ true) ⊎ (is_terminal st.status ≡ true))
      → (e : Error) × (claim_command digest s k sid w at expires ≡ (raise e, s))
  unfolding claim_command commit claimed_file next_claim_seq
  claim_refused sid w at expires h = elim (Bool-cases (st.session_id == sid)) [
    | inr other ↦ (
      value_error (format ("command " ∷ k ∷ " belongs to another session" ∷ [])),
      rw (found, other) refl,
    )
    | inl mine ↦ elim (Bool-cases (is_claimed st.status)) [
      | inl on ↦ (
        value_error (format ("command " ∷ k ∷ " is already claimed" ∷ [])),
        rw (found, mine, on) refl,
      )
      | inr off ↦ elim (Bool-cases (is_terminal st.status)) [
        | inl done ↦ (
          value_error (format ("command " ∷ k ∷ " is already terminal" ∷ [])),
          rw (found, mine, off, done) refl,
        )
        | inr live ↦ absurd (ground (arith, eq_iff st.session_id sid))
      ]
    ]
  ]

-- Once a stored command's claim number has passed n, then after any later sequence of calls a
-- worker that comes with claim n can neither renew the lease nor record a result: the calls raise
-- and leave the store as it was.
pub fenced_forever :
    (digest : String → String) (fromisoformat : String → Result Moment) (s : Store)
    (rs : List Request) (k w : String) (n : ℕ) (st : LeaseState) (at expires : String)
    (payload : Dict Value)
    → get k s.file.commands ≡ some st
    → n < st.claim_seq
    → Barred digest (serve digest fromisoformat s rs) k w n at expires payload
fenced_forever digest fromisoformat s rs k w n st at expires payload found passed =
    elim (Option-cases (get k (serve digest fromisoformat s rs).file.commands)) [
      | inl lost ↦ absurd (subst (Advances (some st)) lost step)
      | inr (st', there) ↦
          let grown = (subst (Advances (some st)) there step).grows in
          stale_refused digest (serve digest fromisoformat s rs) k st' there w n at expires payload
            (λ h. omega arith)
    ]
  where
    step : Advances (some st) (get k (serve digest fromisoformat s rs).file.commands)
    step =
        subst (λ o. Advances o (get k (serve digest fromisoformat s rs).file.commands)) found
          ((serve-Progress digest fromisoformat s rs).at k)
