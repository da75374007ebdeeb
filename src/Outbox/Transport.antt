-- ===== src/Outbox/Transport.antt =====
-- The failures of the transport, after which delivery/store.py may requeue a record.
use codex_watchdog.Common.{
  ap, or_else, Bool, ◌&&◌, ◌∙◌, sym, Option, false, none, some, [], ◌==◌, List, true, ◌∷◌, String,
  ◌≡◌, refl, inl, inr, ◌↔◌, ◌⊎◌, Option-cases, Bool-cases, eq_iff, arith,
}
use mathlib.Core.Path.{subst}
use codex_watchdog.Common.Texts.{after_prefix, one_of}
use codex_watchdog.Common.Membership.{Among, one_of-Among}
use codex_watchdog.Outbox.Records.{OutboxRecord}
use codex_watchdog.Outbox.Operations.{is_requeueable, is_requeueable_transport_failure}

-- The answers of a server after which another delivery may succeed.
abbrev retry_statuses : List String
retry_statuses = "408" ∷ "409" ∷ "425" ∷ "429" ∷ "500" ∷ "502" ∷ "503" ∷ "504" ∷ []

-- The failure codes of the transport: three names, the answers of a server after which another
-- delivery may succeed, and whatever an upstream reports.
abbrev pub TransportCode : String → Type 0
TransportCode code =
    Among ("transport_error" ∷ "transport_timeout" ∷ "transport_configuration_error" ∷ []) code
    ⊎ ((status : String) × (after_prefix "http_" code ≡ some status)
        × Among ("408" ∷ "409" ∷ "425" ∷ "429" ∷ "500" ∷ "502" ∷ "503" ∷ "504" ∷ []) status)
    ⊎ ((after_prefix "http_" code ≡ none)
        × ((report : String) × (after_prefix "upstream_" code ≡ some report)))

none-some : {o : Option String} {s : String} → o ≡ none → o ≡ some s → ⊥
none-some missing found = cc

-- The decision of the code, read off these.
is_requeueable_transport_failure-TransportCode :
    (code : String) → (is_requeueable_transport_failure code ≡ true) ↔ TransportCode code
unfolding is_requeueable_transport_failure
is_requeueable_transport_failure-TransportCode code = elim (Bool-cases (one_of names code)) [
  | inl named ↦ (
    λ h. inl ((one_of-Among names code).0 named),
    λ t. rw (is_requeueable_transport_failure, named) refl,
  )
  | inr unnamed ↦ elim (Option-cases (after_prefix "http_" code)) [
    | inl other ↦ (
      λ h. elim (Option-cases (after_prefix "upstream_" code)) [
        | inl neither ↦
            let clash : false ≡ true =
              (rw (is_requeueable_transport_failure, unnamed, other, neither) at h) in
            cc
        | inr report ↦ inr (inr (other, report))
      ],
      elim [
        | inl named ↦ absurd (apart unnamed named)
        | inr (inl (status, found, listed)) ↦ absurd (none-some other found)
        | inr (inr (other', (report, found))) ↦
            rw (is_requeueable_transport_failure, unnamed, other, found) refl
      ],
    )
    | inr (status, found) ↦ (
      λ h. inr (
          inl (
            status,
            found,
            (one_of-Among statuses status).0
                (rw (is_requeueable_transport_failure, unnamed, found) at h),
          )),
      elim [
        | inl named ↦ absurd (apart unnamed named)
        | inr (inl (status', found', listed)) ↦
            rw
              (
                is_requeueable_transport_failure,
                unnamed,
                found',
                (one_of-Among statuses status').1 listed,
              )
              refl
        | inr (inr (other, report)) ↦ absurd (none-some other found)
      ],
    )
  ]
]
  where
    names : List String
    names = "transport_error" ∷ "transport_timeout" ∷ "transport_configuration_error" ∷ []

    statuses : List String
    statuses = "408" ∷ "409" ∷ "425" ∷ "429" ∷ "500" ∷ "502" ∷ "503" ∷ "504" ∷ []

    apart : one_of names code ≡ false → Among names code → ⊥
    apart unnamed named =
        let clash : true ≡ false = sym ((one_of-Among names code).1 named) ∙ unnamed in cc

-- A delivery that failed for a reason of the transport.
abbrev pub TransportFailed : OutboxRecord → Type 0
TransportFailed r =
    (r.delivery_status ≡ "delivery_failed")
    × ((code : String) × (r.failure_code ≡ some code) × TransportCode code)

pub true-false : {a : Bool} → a ≡ true → a ≡ false → ⊥
true-false holds fails = let clash : true ≡ false = sym holds ∙ fails in cc

and_true : (a b : Bool) → a && b ≡ true → (a ≡ true) × (b ≡ true)
and_true true b h = (refl, h)
and_true false b h = cc

pub some-inj : {x y : String} → some x ≡ some y → x ≡ y
some-inj h = ground arith

and_both : {a b : Bool} → a ≡ true → b ≡ true → a && b ≡ true
and_both left right = rw (left, right) refl

stored_code :
    (o : Option String)
    → is_requeueable_transport_failure (or_else o "") ≡ true
    → (code : String) × (o ≡ some code) × TransportCode code
unfolding is_requeueable_transport_failure after_prefix
stored_code none h = absurd (true-false h refl)
stored_code (some code) h = (code, refl, (is_requeueable_transport_failure-TransportCode code).0 h)

pub is_requeueable-TransportFailed :
    (r : OutboxRecord) → (is_requeueable r ≡ true) ↔ TransportFailed r
unfolding is_requeueable
is_requeueable-TransportFailed r = (forth, back)
  where
    forth : is_requeueable r ≡ true → TransportFailed r
    forth h =
        let (failed, transport) =
          and_true (r.delivery_status == "delivery_failed")
            (is_requeueable_transport_failure (or_else r.failure_code "")) h in
        (
          (eq_iff r.delivery_status "delivery_failed").0 failed,
          stored_code r.failure_code transport,
        )

    back : TransportFailed r → is_requeueable r ≡ true
    back (status, (code, e, transport)) =
        and_both ((eq_iff r.delivery_status "delivery_failed").1 status) (
          ap (λ o. is_requeueable_transport_failure (or_else o "")) e
          ∙ (is_requeueable_transport_failure-TransportCode code).1 transport)

-- No code of the transport is empty.
pub some_code : (old : String) → TransportCode old → (old == "") ≡ false
unfolding is_requeueable_transport_failure after_prefix
some_code old transport = elim (Bool-cases (old == "")) [
  | inl empty ↦
      let clash : false ≡ true =
        (is_requeueable_transport_failure-TransportCode "").1
          (subst TransportCode ((eq_iff old "").0 empty) transport) in
      cc
  | inr other ↦ other
]
