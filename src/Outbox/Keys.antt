-- ===== src/Outbox/Keys.antt =====
-- The key by which `list_pending_delivery_records` of delivery/store.py sorts.
use codex_watchdog.Common.{
  ℕ, ◌<◌, ◌≤◌, String, ◌≡◌, sym, ◌⊎◌, inl, inr, Bool, true, false, ◌&&◌, ◌||◌, List, [], ◌∷◌, arith,
  ◌==◌, eq_iff, ltb, leb, nat_eq, All,
}
use codex_watchdog.Common.Texts.{text_lt}
use codex_watchdog.Common.Ordering.{
  TextLess, TextLess-trans, text_lt-TextLess, text_lt-total, Lex, Lex-trans,
}
use codex_watchdog.Outbox.Records.{OutboxRecord, fact_snapshot_order}
use codex_watchdog.Outbox.Operations.{record_leb}

abbrev version_number : OutboxRecord → ℕ
version_number r = (fact_snapshot_order r.fact_snapshot_version).0

abbrev version_text : OutboxRecord → String
version_text r = (fact_snapshot_order r.fact_snapshot_version).1

abbrev SeqLe : OutboxRecord → OutboxRecord → Type 0
SeqLe a b = a.outbox_seq ≤ b.outbox_seq

abbrev VersionLe : OutboxRecord → OutboxRecord → Type 0
VersionLe = Lex version_number ◌<◌ (Lex version_text TextLess SeqLe)

-- By session, then by the snapshot's number and its text, then by position.
abbrev pub KeyLe : OutboxRecord → OutboxRecord → Type 0
KeyLe = Lex (λ r. r.session_id) TextLess VersionLe

abbrev pub IsSorted : List OutboxRecord → Type 0
IsSorted [] = Unit
IsSorted (r ∷ rs) = All (KeyLe r) rs × IsSorted rs

pub KeyLe-trans : (a b c : OutboxRecord) → KeyLe a b → KeyLe b c → KeyLe a c
KeyLe-trans =
    Lex-trans (λ r. r.session_id) TextLess VersionLe TextLess-trans
      (Lex-trans version_number ◌<◌ (Lex version_text TextLess SeqLe) (λ x y z p q. omega arith)
        (Lex-trans version_text TextLess SeqLe TextLess-trans (λ a b c p q. omega arith)))

-- What the Boolean tests of a comparison of keys say when it holds, and when it fails.
holds :
    (sl se nl ne tl te q : Bool)
    → sl || se && ((nl || ne && tl) || (ne && te) && q) ≡ true
    → (sl ≡ true)
      ⊎ ((se ≡ true) × ((nl ≡ true) ⊎ ((ne ≡ true) × ((tl ≡ true) ⊎ ((te ≡ true) × (q ≡ true))))))
holds sl se nl ne tl te q h = ground arith

fails :
    (sl se nl ne tl te q : Bool)
    → sl || se && ((nl || ne && tl) || (ne && te) && q) ≡ false
    → (sl ≡ false)
      × ((se ≡ true) → (nl ≡ false) × ((ne ≡ true) → (tl ≡ false) × ((te ≡ true) → q ≡ false)))
fails sl se nl ne tl te q h = ground arith

number_above : (m n : ℕ) → ltb m n ≡ false → (n < m) ⊎ (m ≡ n)
number_above m n h = ground arith

number_same : (m n : ℕ) → m ≡ n → nat_eq m n ≡ true
number_same m n h = ground arith

same_number : (m n : ℕ) → nat_eq m n ≡ true → m ≡ n
same_number m n h = ground arith

smaller : (m n : ℕ) → ltb m n ≡ true → m < n
smaller m n h = ground arith

at_most : (m n : ℕ) → leb m n ≡ true → m ≤ n
at_most m n h = ground arith

below : (m n : ℕ) → leb m n ≡ false → n ≤ m
below m n h = ground arith

-- The code's comparison of two keys.
pub record_leb-KeyLe : (a b : OutboxRecord) → record_leb a b ≡ true → KeyLe a b
record_leb-KeyLe a b h =
    elim (holds (text_lt a.session_id b.session_id) (a.session_id == b.session_id)
      (ltb (version_number a) (version_number b)) (nat_eq (version_number a) (version_number b))
      (text_lt (version_text a) (version_text b)) (version_text a == version_text b)
      (leb a.outbox_seq b.outbox_seq) h) [
        | inl before ↦ inl (text_lt-TextLess a.session_id b.session_id before)
        | inr (same, inl less) ↦
            inr ((eq_iff a.session_id b.session_id).0 same, inl (smaller _ _ less))
        | inr (same, inr (level, inl before)) ↦ inr (
          (eq_iff a.session_id b.session_id).0 same,
          inr (same_number _ _ level, inl (text_lt-TextLess _ _ before)),
        )
        | inr (same, inr (level, inr (text, order))) ↦ inr (
          (eq_iff a.session_id b.session_id).0 same,
          inr (
            same_number _ _ level,
            inr ((eq_iff (version_text a) (version_text b)).0 text, at_most _ _ order),
          ),
        )
      ]

pub record_leb-above : (a b : OutboxRecord) → record_leb a b ≡ false → KeyLe b a
record_leb-above a b h =
    let (session, numbers) =
      fails (text_lt a.session_id b.session_id) (a.session_id == b.session_id)
        (ltb (version_number a) (version_number b)) (nat_eq (version_number a) (version_number b))
        (text_lt (version_text a) (version_text b)) (version_text a == version_text b)
        (leb a.outbox_seq b.outbox_seq) h in
    elim (text_lt-total a.session_id b.session_id session) [
      | inr above ↦ inl above
      | inl same ↦
          let (number, texts) = numbers ((eq_iff a.session_id b.session_id).1 same) in
          elim (number_above (version_number a) (version_number b) number) [
            | inl above ↦ inr (sym same, inl above)
            | inr level ↦
                let (text, order) = texts (number_same _ _ level) in
                elim (text_lt-total (version_text a) (version_text b) text) [
                  | inr above ↦ inr (sym same, inr (sym level, inl above))
                  | inl equal ↦ inr (
                    sym same,
                    inr (
                      sym level,
                      inr (
                        sym equal,
                        below _ _ (order ((eq_iff (version_text a) (version_text b)).1 equal)),
                      ),
                    ),
                  )
                ]
          ]
    ]
