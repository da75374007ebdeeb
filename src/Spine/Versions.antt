-- ===== src/Spine/Versions.antt =====
-- The versions that session_spine/store.py gives to the facts of a session, as delivery/store.py reads
-- them.
use codex_watchdog.Common.Texts.{digits, format, show, after_prefix}
use codex_watchdog.Common.{
  ℕ, ◌+◌, ◌≤◌, ◌<◌, String, ◌≡◌, refl, sym, ap, ◌∙◌, ◌⊎◌, inl, inr, true, false, Option, none, some,
  List, [], ◌∷◌, arith, ◌==◌, eq_iff, eq_refl, Bool-cases, Dict, get, put, get-put, get-put_ne,
}
use codex_watchdog.Common.Values.{Value, text_eq, option_eq}
use text.Mathlib.TextLemmas.{append-nil}
use codex_watchdog.Common.Numerals.{read_nat-show, after_prefix-append}
use codex_watchdog.Outbox.Records.{fact_snapshot_order, order_lt}
use codex_watchdog.Spine.Store.{
  Snapshot, SpineRecord, SpineFile, PutRequest, sanitized_record, read_file, next_session_seq,
  next_version, spine_record, put_session, puts,
}
use Prim.Native.String as S

abbrev pub version : ℕ → String
version n = format ("fact-v" ∷ show n ∷ [])

-- The outbox reads back the number of a version that the spine has written, beside its text.
pub order-version : (n : ℕ) → fact_snapshot_order (version n) ≡ (n, version n)
unfolding fact_snapshot_order format
order-version n =
    let plain : version n ≡ S.◌++◌ "fact-v" (show n) = ap (S.◌++◌ "fact-v") (append-nil (show n)) in
    let behind : after_prefix "fact-v" (version n) ≡ some (show n) =
      ap (after_prefix "fact-v") plain ∙ after_prefix-append "fact-v" (show n) in
    rw (fact_snapshot_order, behind, read_nat-show n) refl

same_print :
    (o : Option String) (a b : String) → o ≡ some a → option_eq text_eq o (some b) ≡ true → a ≡ b
unfolding option_eq
same_print o a b e h = (eq_iff a b).0 (rw e at h)

print_same :
    (o : Option String) (a b : String) → o ≡ some a → a ≡ b → option_eq text_eq o (some b) ≡ true
unfolding option_eq
print_same o a b e same = rw (e, same) (eq_refl b)

-- Versions with numbers in order are in order for the outbox.
later_version :
    (m n : ℕ) (v w : String)
    → v ≡ version m
    → w ≡ version n
    → m < n
    → order_lt (fact_snapshot_order v) (fact_snapshot_order w) ≡ true
later_version m n v w e e' less = rw (e, e', order-version m, order-version n) (ground arith)

module _ (sanitize : String → String) (snapshot_print : Snapshot → String)
    (facts_print : List (Dict Value) → String) where
  -- A record whose version is numbered, no higher than its position, and whose fingerprints are those
  -- of one snapshot.
  pub record Versioned (r : SpineRecord) : Type 0 where
    pub number : ℕ
    pub numbered : r.fact_snapshot_version ≡ version number
    pub below : number ≤ r.session_seq
    pub seen : Snapshot
    pub snapshot_seen : r.snapshot_fingerprint ≡ some (snapshot_print seen)
    pub facts_seen : r.facts_fingerprint ≡ some (facts_print seen.facts)

  abbrev pub AllVersioned : SpineFile → Type 0
  AllVersioned f = (k : String) (r : SpineRecord) → get k f ≡ some r → Versioned r

  some-inj : {x y : SpineRecord} → some x ≡ some y → x ≡ y
  some-inj h = ground arith

  read_file-found :
      (f : SpineFile) (k : String) (r : SpineRecord)
      → get k (read_file sanitize f) ≡ some r
      → (x : SpineRecord) × (get k f ≡ some x) × (sanitized_record sanitize x ≡ r)
  unfolding read_file get
  read_file-found [] k r h = cc
  read_file-found ((j, x) ∷ f) k r h = elim (Bool-cases (j == k)) [
    | inl same ↦ (x, rw same refl, some-inj (rw (read_file, get, same) at h))
    | inr other ↦
        let (y, found, equal) = read_file-found f k r (rw (read_file, get, other) at h) in
        (y, rw other found, equal)
  ]

  sanitized-Versioned : (x : SpineRecord) → Versioned x → Versioned (sanitized_record sanitize x)
  sanitized-Versioned x v = record {
    number = v.number;
    numbered = v.numbered;
    below = v.below;
    seen = v.seen;
    snapshot_seen = v.snapshot_seen;
    facts_seen = v.facts_seen;
  }

  read_file-Versioned : (f : SpineFile) → AllVersioned f → AllVersioned (read_file sanitize f)
  read_file-Versioned f all k r h =
      let (x, found, equal) = read_file-found f k r h in
      rw (← equal) (sanitized-Versioned x (all k x found))

  -- Facts with other fingerprints give the whole snapshot another fingerprint.
  abbrev pub Distinguishes : Type 0
  Distinguishes =
      (s t : Snapshot)
      → snapshot_print s ≡ snapshot_print t
      → facts_print s.facts ≡ facts_print t.facts

  abbrev record_of : Option SpineRecord → PutRequest → SpineRecord
  record_of existing q = spine_record sanitize snapshot_print facts_print existing q

  -- The outbox's view of a put over a stored record.
  abbrev pub Follows : SpineRecord → SpineRecord → Type 0
  Follows r r' =
      ((r'.facts_fingerprint ≡ r.facts_fingerprint)
        × (r'.fact_snapshot_version ≡ r.fact_snapshot_version))
      ⊎ (order_lt (fact_snapshot_order r.fact_snapshot_version)
            (fact_snapshot_order r'.fact_snapshot_version)
          ≡ true)

  module _ (distinguishes : Distinguishes) where
    new-Versioned : (q : PutRequest) → Versioned (record_of none q)
    unfolding spine_record next_session_seq next_version format show digits
    new-Versioned q = record {
      number = 1;
      numbered = refl;
      below = omega arith;
      seen = q.content;
      snapshot_seen = refl;
      facts_seen = refl;
    }

    seq-grows :
        (r : SpineRecord) (c : Snapshot)
        → r.session_seq ≤ next_session_seq sanitize snapshot_print facts_print (some r) c
    unfolding next_session_seq
    seq-grows r c =
        elim (Bool-cases (option_eq text_eq r.snapshot_fingerprint (some (snapshot_print c)))) [
          | inl same ↦ rw (next_session_seq, same) (omega arith)
          | inr moved ↦ rw (next_session_seq, moved) (omega arith)
        ]

    -- Facts that were seen before keep their version.
    same_facts :
        (r : SpineRecord) (q : PutRequest)
        → Versioned r
        → option_eq text_eq r.facts_fingerprint (some (facts_print q.content.facts)) ≡ true
        → Versioned (record_of (some r) q) × Follows r (record_of (some r) q)
    unfolding spine_record next_version
    same_facts r q v same =
        let kept : next_version sanitize snapshot_print facts_print (some r) q.content
            ≡ r.fact_snapshot_version =
          rw (next_version, same) refl in
        (
          record {
            number = v.number;
            numbered = kept ∙ v.numbered;
            below = omega (arith, v.below, seq-grows r q.content);
            seen = q.content;
            snapshot_seen = refl;
            facts_seen = refl;
          },
          inl (
            sym (v.facts_seen ∙ ap some (same_print r.facts_fingerprint _ _ v.facts_seen same)),
            kept,
          ),
        )

    -- New facts get the next number, which the session's position has reached.
    new_facts :
        (r : SpineRecord) (q : PutRequest)
        → Versioned r
        → option_eq text_eq r.facts_fingerprint (some (facts_print q.content.facts)) ≡ false
        → option_eq text_eq r.snapshot_fingerprint (some (snapshot_print q.content)) ≡ false
        → Versioned (record_of (some r) q) × Follows r (record_of (some r) q)
    unfolding spine_record next_version next_session_seq
    new_facts r q v new moved =
        let next : next_version sanitize snapshot_print facts_print (some r) q.content
            ≡ version (r.session_seq + 1) =
          rw (next_version, new) refl in
        let seq : next_session_seq sanitize snapshot_print facts_print (some r) q.content
            ≡ r.session_seq + 1 =
          rw (next_session_seq, moved) refl in
        (
          record {
            number = r.session_seq + 1;
            numbered = next;
            below = omega (arith, seq);
            seen = q.content;
            snapshot_seen = refl;
            facts_seen = refl;
          },
          inr (
              later_version v.number (r.session_seq + 1) r.fact_snapshot_version _ v.numbered next
                (omega (arith, v.below))),
        )

    old-Versioned :
        (r : SpineRecord) (q : PutRequest)
        → Versioned r
        → Versioned (record_of (some r) q) × Follows r (record_of (some r) q)
    old-Versioned r q v =
        elim (Bool-cases
          (option_eq text_eq r.facts_fingerprint (some (facts_print q.content.facts)))) [
            | inl same ↦ same_facts r q v same
            | inr new ↦
                elim (Bool-cases
                  (option_eq text_eq r.snapshot_fingerprint (some (snapshot_print q.content)))) [
                    | inr moved ↦ new_facts r q v new moved
                    | inl unmoved ↦
                        let equal =
                          distinguishes v.seen q.content
                            (same_print r.snapshot_fingerprint _ _ v.snapshot_seen unmoved) in
                        let clash : true ≡ false =
                          sym (print_same r.facts_fingerprint _ _ v.facts_seen equal) ∙ new in
                        cc
                  ]
          ]

    put_over :
        (q : PutRequest) (existing : Option SpineRecord)
        → ((x : SpineRecord) → existing ≡ some x → Versioned x)
        → Versioned (record_of existing q)
    put_over q none all = new-Versioned q
    put_over q (some x) all = (old-Versioned x q (all x refl)).0

    put_session-Versioned :
        (q : PutRequest) (f : SpineFile)
        → AllVersioned f
        → AllVersioned (put_session sanitize snapshot_print facts_print q f).1
    unfolding put_session
    put_session-Versioned q f all k r h = elim (Bool-cases (q.project_id == k)) [
      | inr other ↦
          stored k r (sym (get-put_ne q.project_id k new (read_file sanitize f) other) ∙ h)
      | inl same ↦
          let found : get k (put q.project_id new (read_file sanitize f)) ≡ some new =
            get-put q.project_id k new (read_file sanitize f) ∙ rw same refl in
          let equal : new ≡ r = some-inj (sym found ∙ h) in
          rw (← equal)
            (put_over q (get q.project_id (read_file sanitize f)) (λ x e. stored q.project_id x e))
    ]
      where
        new : SpineRecord
        new = record_of (get q.project_id (read_file sanitize f)) q

        stored : AllVersioned (read_file sanitize f)
        stored = read_file-Versioned f all

    puts-Versioned :
        (qs : List PutRequest) (f : SpineFile)
        → AllVersioned f
        → AllVersioned (puts sanitize snapshot_print facts_print qs f)
    unfolding puts
    puts-Versioned [] f all = all
    puts-Versioned (q ∷ qs) f all =
        puts-Versioned qs (put_session sanitize snapshot_print facts_print q f).1
          (put_session-Versioned q f all)

    empty-Versioned : AllVersioned []
    unfolding get
    empty-Versioned k r h = cc

    read_file-get :
        (f : SpineFile) (k : String) (r : SpineRecord)
        → get k f ≡ some r
        → get k (read_file sanitize f) ≡ some (sanitized_record sanitize r)
    unfolding read_file get
    read_file-get [] k r h = cc
    read_file-get ((j, x) ∷ f) k r h = elim (Bool-cases (j == k)) [
      | inl same ↦
          rw (read_file, get, same)
            (ap (λ y. some (sanitized_record sanitize y)) (some-inj (rw (get, same) at h)))
      | inr other ↦ rw (read_file, get, other) (read_file-get f k r (rw (get, other) at h))
    ]

    -- If snapshots with one fingerprint have facts with one fingerprint, then after any sequence
    -- of puts into an empty spine a further put of a stored session either has the facts'
    -- fingerprint that is stored and keeps their version, or gives a version that is strictly
    -- later for the outbox.
    pub facts_move_on :
        (before : List PutRequest) (q : PutRequest) (r : SpineRecord)
        → get q.project_id (puts sanitize snapshot_print facts_print before []) ≡ some r
        → Follows r
            (put_session sanitize snapshot_print facts_print q
              (puts sanitize snapshot_print facts_print before [])).0
    unfolding put_session
    facts_move_on before q r found =
        let f = puts sanitize snapshot_print facts_print before [] in
        let v = puts-Versioned before [] empty-Versioned q.project_id r found in
        rw (put_session, read_file-get f q.project_id r found)
          (old-Versioned (sanitized_record sanitize r) q (sanitized-Versioned r v)).1
