-- ===== src/Memory/Sorting.antt =====
-- What the sort by `queue_seq` gives claim_next.
use codex_watchdog.Common.{
  ℕ, ◌≤◌, ◌≡◌, inl, inr, true, List, [], ◌∷◌, arith, leb, Bool-cases, All, All-weaken,
}
use codex_watchdog.Memory.Records.{QueueRecord}
use codex_watchdog.Memory.Queue.{insert_record, sort_records}

module _ (P : QueueRecord → Type 0) where
  insert-All :
      (r : QueueRecord) (xs : List QueueRecord) → P r → All P xs → All P (insert_record r xs)
  unfolding insert_record
  insert-All r [] h hs = (h, tt)
  insert-All r (x ∷ xs) h hs = elim (Bool-cases (leb r.queue_seq x.queue_seq)) [
    | inl here ↦ rw here (h, hs)
    | inr later ↦ rw later (hs.0, insert-All r xs h hs.1)
  ]

  pub sort-All : (xs : List QueueRecord) → All P xs → All P (sort_records xs)
  unfolding sort_records
  sort-All [] h = tt
  sort-All (x ∷ xs) h = insert-All x (sort_records xs) h.0 (sort-All xs h.1)

  insert-All_back :
      (r : QueueRecord) (xs : List QueueRecord) → All P (insert_record r xs) → P r × All P xs
  unfolding insert_record
  insert-All_back r [] h = (h.0, tt)
  insert-All_back r (x ∷ xs) h = elim (Bool-cases (leb r.queue_seq x.queue_seq)) [
    | inl here ↦ rw (insert_record, here) at h
    | inr later ↦
        let (first, rest) = (rw (insert_record, later) at h) in
        let (new, old) = insert-All_back r xs rest in (new, (first, old))
  ]

  pub sort-All_back : (xs : List QueueRecord) → All P (sort_records xs) → All P xs
  unfolding sort_records
  sort-All_back [] h = tt
  sort-All_back (x ∷ xs) h =
      let (first, rest) = insert-All_back x (sort_records xs) h in (first, sort-All_back xs rest)

-- The first of the list is the smallest.
abbrev FirstLeast : List QueueRecord → Type 0
FirstLeast [] = Unit
FirstLeast (x ∷ xs) = All (λ y. x.queue_seq ≤ y.queue_seq) xs

insert-FirstLeast :
    (r : QueueRecord) (xs : List QueueRecord) → FirstLeast xs → FirstLeast (insert_record r xs)
unfolding insert_record
insert-FirstLeast r [] h = tt
insert-FirstLeast r (x ∷ xs) h = elim (Bool-cases (leb r.queue_seq x.queue_seq)) [
  | inl here ↦ rw here (leb-le here, All-weaken (λ y le. omega (arith, leb-le here, le)) xs h)
  | inr later ↦ rw later (insert-All (λ y. x.queue_seq ≤ y.queue_seq) r xs (ground arith) h)
]
  where
    leb-le : {m n : ℕ} → leb m n ≡ true → m ≤ n
    leb-le h = ground arith

sort-FirstLeast : (xs : List QueueRecord) → FirstLeast (sort_records xs)
unfolding sort_records
sort-FirstLeast [] = tt
sort-FirstLeast (x ∷ xs) = insert-FirstLeast x (sort_records xs) (sort-FirstLeast xs)

-- The first record of a sorted list is one of the list, and none of the list stands before it.
pub first-least :
    (xs : List QueueRecord) {y : QueueRecord} {ys : List QueueRecord}
    → sort_records xs ≡ y ∷ ys
    → All (λ x. y.queue_seq ≤ x.queue_seq) xs
first-least xs {y} {ys} e =
    sort-All_back (λ x. y.queue_seq ≤ x.queue_seq) xs
      (rw e (omega arith, rw e at (sort-FirstLeast xs)))
