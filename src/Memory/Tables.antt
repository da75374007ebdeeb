-- ===== src/Memory/Tables.antt =====
-- Writing into a table whose records carry their own keys, as the records of memory_hub/ingest_queue.py
-- do: a record in the place of an old one, or at the end.
use codex_watchdog.Common.{
  ℕ, ◌+◌, String, ◌≡◌, refl, sym, ap, ◌∙◌, inl, inr, true, false, none, some, [], ◌∷◌, ◌++◌, map,
  arith, ◌==◌, eq_iff, eq_refl, if◌then◌else◌, Bool-cases, Dict, get, put, keys, values, Unique,
  All, All-weaken,
}

module _ {V : Type 0} where
  pub get-head :
      (k j : String) (w : V) (d : Dict V) (old : V)
      → (j == k) ≡ true
      → get k ((j, w) ∷ d) ≡ some old
      → w ≡ old
  unfolding get
  get-head k j w d old same h = ground arith

  pub get-tail :
      (k j : String) (w : V) (d : Dict V) (old : V)
      → (j == k) ≡ false
      → get k ((j, w) ∷ d) ≡ some old
      → get k d ≡ some old
  unfolding get
  get-tail k j w d old other h = ground arith

  pub keys-put_old :
      (k : String) (v : V) (d : Dict V) (old : V) → get k d ≡ some old → keys (put k v d) ≡ keys d
  unfolding put get
  keys-put_old k v [] old h = cc
  keys-put_old k v ((j, w) ∷ d) old h = elim (Bool-cases (j == k)) [
    | inl same ↦ rw same refl
    | inr other ↦
        rw other (ap (λ ks. j ∷ ks) (keys-put_old k v d old (get-tail k j w d old other h)))
  ]

  pub put-new : (k : String) (v : V) (d : Dict V) → get k d ≡ none → put k v d ≡ d ++ (k, v) ∷ []
  unfolding put get
  put-new k v [] h = refl
  put-new k v ((j, w) ∷ d) h = elim (Bool-cases (j == k)) [
    | inl same ↦ cc
    | inr other ↦ rw other (ap (λ e. (j, w) ∷ e) (put-new k v d (ground arith)))
  ]

  -- Each entry of a dict is what its key finds.
  pub All-get : (d : Dict V) → Unique d → All (λ e. get e.0 d ≡ some e.1) d
  unfolding get
  All-get [] u = tt
  All-get ((k, v) ∷ d) u =
      (rw (eq_refl k) refl, All-weaken (λ e h. shifted e.0 e.1 h) d (All-get d u.1))
    where
      shifted :
          (j : String) (w : V) → get j d ≡ some w → (if k == j then some v else get j d) ≡ some w
      shifted j w h = ground (arith, eq_iff k j)

module _ {V B : Type 0} (field : V → B) where
  -- A new record with the old one's entry leaves the column.
  pub column-put_old :
      (k : String) (v : V) (d : Dict V) (old : V)
      → get k d ≡ some old
      → field v ≡ field old
      → map field (values (put k v d)) ≡ map field (values d)
  unfolding put get
  column-put_old k v [] old h e = cc
  column-put_old k v ((j, w) ∷ d) old h e = elim (Bool-cases (j == k)) [
    | inl same ↦
        rw same
          (ap (λ b. b ∷ map field (values d)) (e ∙ sym (ap field (get-head k j w d old same h))))
    | inr other ↦
        rw other
          (ap (λ bs. field w ∷ bs) (column-put_old k v d old (get-tail k j w d old other h) e))
  ]

  pub column-snoc :
      (k : String) (v : V) (d : Dict V)
      → map field (values (d ++ (k, v) ∷ [])) ≡ map field (values d) ++ field v ∷ []
  column-snoc k v [] = refl
  column-snoc k v ((j, w) ∷ d) = ap (λ bs. field w ∷ bs) (column-snoc k v d)

  -- What holds of each key and its record's entry.
  pub column-All :
      (P : B → Type 0) (d : Dict V)
      → All P (map field (values d))
      → All (λ v. P (field v)) (values d)
  column-All P [] h = tt
  column-All P ((k, v) ∷ d) h = (h.0, column-All P d h.1)

pub keys-snoc :
    {V : Type 0} (k : String) (v : V) (d : Dict V) → keys (d ++ (k, v) ∷ []) ≡ keys d ++ k ∷ []
keys-snoc k v [] = refl
keys-snoc k v ((j, w) ∷ d) = ap (λ ks. j ∷ ks) (keys-snoc k v d)

-- The sum of a measure over a table.
module _ {V : Type 0} (measure : V → ℕ) where
  abbrev pub total : Dict V → ℕ
  total [] = 0
  total ((k, v) ∷ d) = measure v + total d

  pub total-put_old :
      (k : String) (v : V) (d : Dict V) (old : V)
      → get k d ≡ some old
      → total (put k v d) + measure old ≡ total d + measure v
  unfolding put get
  total-put_old k v [] old h = cc
  total-put_old k v ((j, w) ∷ d) old h = elim (Bool-cases (j == k)) [
    | inl same ↦ rw same (omega (arith, ap measure (get-head k j w d old same h)))
    | inr other ↦ rw other (omega (arith, total-put_old k v d old (get-tail k j w d old other h)))
  ]

-- The second of two writes under a key is the one that stays.
pub put-put : {V : Type 0} (k : String) (v w : V) (d : Dict V) → put k w (put k v d) ≡ put k w d
unfolding put
put-put k v w [] = rw (eq_refl k) refl
put-put k v w ((j, x) ∷ d) = elim (Bool-cases (j == k)) [
  | inl same ↦ rw (put, same, put, same) refl
  | inr other ↦ rw (put, other, put, other) (ap (λ e. (j, x) ∷ e) (put-put k v w d))
]
