-- ===== src/Outbox/Pending.antt =====
-- What `list_pending_delivery_records` hands to the delivery worker.
use codex_watchdog.Common.{
  ap, is_none, String, ◌≡◌, refl, ◌↔◌, ◌⊎◌, inl, inr, Bool, true, false, ◌&&◌, ◌||◌, Option, none,
  some, List, [], ◌∷◌, arith, ◌==◌, eq_iff, Bool-cases, values, keep, All,
}
use codex_watchdog.Common.Values.{text_eq, option_eq}
use mathlib.Core.List.{Perm}
use codex_watchdog.Outbox.Records.{OutboxRecord, OutboxFile}
use codex_watchdog.Outbox.Operations.{
  insert_record, sort_records, record_leb, is_pending, list_pending_delivery_records,
}
use codex_watchdog.Outbox.Keys.{KeyLe, KeyLe-trans, IsSorted, record_leb-KeyLe, record_leb-above}
use mathlib.Core.List.Perm

insert_record-Perm :
    (r : OutboxRecord) (xs : List OutboxRecord) → Perm (insert_record r xs) (r ∷ xs)
unfolding insert_record
insert_record-Perm r [] = Perm.rfl
insert_record-Perm r (x ∷ xs) = elim (Bool-cases (record_leb r x)) [
  | inl here ↦ rw here Perm.rfl
  | inr later ↦ rw later (Perm.trans (Perm.cons x (insert_record-Perm r xs)) (Perm.swap r x xs))
]

sort_records-Perm : (xs : List OutboxRecord) → Perm (sort_records xs) xs
unfolding sort_records
sort_records-Perm [] = Perm.rfl
sort_records-Perm (x ∷ xs) =
    Perm.trans (insert_record-Perm x (sort_records xs)) (Perm.cons x (sort_records-Perm xs))

KeyLe-insert :
    (x r : OutboxRecord) (rs : List OutboxRecord)
    → KeyLe x r
    → All (KeyLe x) rs
    → All (KeyLe x) (insert_record r rs)
unfolding insert_record
KeyLe-insert x r [] le all = (le, tt)
KeyLe-insert x r (y ∷ rs) le (first, all) = elim (Bool-cases (record_leb r y)) [
  | inl here ↦ rw here (le, (first, all))
  | inr later ↦ rw later (first, KeyLe-insert x r rs le all)
]

above-All :
    (r y : OutboxRecord) (rs : List OutboxRecord) → KeyLe r y → All (KeyLe y) rs → All (KeyLe r) rs
above-All r y [] le all = tt
above-All r y (z ∷ rs) le (first, all) = (KeyLe-trans r y z le first, above-All r y rs le all)

insert_record-IsSorted :
    (r : OutboxRecord) (rs : List OutboxRecord) → IsSorted rs → IsSorted (insert_record r rs)
unfolding insert_record
insert_record-IsSorted r [] sorted = (tt, tt)
insert_record-IsSorted r (y ∷ rs) (all, sorted) = elim (Bool-cases (record_leb r y)) [
  | inl here ↦
      let le = record_leb-KeyLe r y here in rw here ((le, above-All r y rs le all), (all, sorted))
  | inr later ↦
      rw later
        (KeyLe-insert y r rs (record_leb-above r y later) all, insert_record-IsSorted r rs sorted)
]

sort_records-IsSorted : (xs : List OutboxRecord) → IsSorted (sort_records xs)
unfolding sort_records
sort_records-IsSorted [] = tt
sort_records-IsSorted (x ∷ xs) =
    insert_record-IsSorted x (sort_records xs) (sort_records-IsSorted xs)

some-inj : {x y : String} → some x ≡ some y → x ≡ y
some-inj h = ground arith

-- A record that waits for its delivery, of the session that is asked for, if one is.
abbrev pub IsPending : Option String → OutboxRecord → Type 0
IsPending session_id r =
    ((r.delivery_status ≡ "pending") ⊎ (r.delivery_status ≡ "retrying"))
    × ((session_id ≡ none) ⊎ (session_id ≡ some r.session_id))

both : (a b c : Bool) → (a || b) && c ≡ true → ((a ≡ true) ⊎ (b ≡ true)) × (c ≡ true)
both true b c h = (inl refl, h)
both false true c h = (inr refl, h)
both false false c h = cc

joined : {a b c : Bool} → (a ≡ true) ⊎ (b ≡ true) → c ≡ true → (a || b) && c ≡ true
joined (inl left) third = rw (left, third) refl
joined {a = true} (inr right) third = rw third refl
joined {a = false} (inr right) third = rw (right, third) refl

asked :
    (o : Option String) (s : String)
    → (is_none o || option_eq text_eq o (some s) ≡ true) ↔ (o ≡ none) ⊎ (o ≡ some s)
unfolding option_eq
asked none s = (λ h. inl refl, λ h. refl)
asked (some t) s = (
  λ h. inr (ap some ((eq_iff t s).0 h)),
  elim [ inl missing ↦ cc | inr same ↦ (eq_iff t s).1 (some-inj same) ],
)

is_pending-IsPending :
    (session_id : Option String) (r : OutboxRecord)
    → (is_pending session_id r ≡ true) ↔ IsPending session_id r
unfolding is_pending
is_pending-IsPending session_id r = (
  λ h.
      let (open', named) =
        both (r.delivery_status == "pending") (r.delivery_status == "retrying") _ h in
      (
        elim open' [
          | inl pending ↦ inl ((eq_iff r.delivery_status "pending").0 pending)
          | inr retrying ↦ inr ((eq_iff r.delivery_status "retrying").0 retrying)
        ],
        (asked session_id r.session_id).0 named,
      ),
  λ (open', named).
      joined
        (elim open' [
          | inl pending ↦ inl ((eq_iff r.delivery_status "pending").1 pending)
          | inr retrying ↦ inr ((eq_iff r.delivery_status "retrying").1 retrying)
        ])
        ((asked session_id r.session_id).1 named),
)

-- list_pending_delivery_records returns, without loss or repetition, the records that its test
-- keeps, in the order of their sessions, then of their snapshots' numbers and texts, then of their
-- positions; and the test keeps exactly the records that are pending or retrying and of the
-- session that is asked for, if one is.
pub list_pending_delivery_records-IsSorted :
    (f : OutboxFile) (session_id : Option String)
    → IsSorted (list_pending_delivery_records f session_id)
      × Perm
          (list_pending_delivery_records f session_id)
          (keep (is_pending session_id) (values f.delivery_outbox))
      × ((r : OutboxRecord) → (is_pending session_id r ≡ true) ↔ IsPending session_id r)
unfolding list_pending_delivery_records
list_pending_delivery_records-IsSorted f session_id = (
  sort_records-IsSorted (keep (is_pending session_id) (values f.delivery_outbox)),
  sort_records-Perm (keep (is_pending session_id) (values f.delivery_outbox)),
  is_pending-IsPending session_id,
)
