-- ===== src/Journal/Ordering.antt =====
-- The journal's records in order: what a check that passes says of their sequence numbers, and how it
-- continues behind them.
use tmux_a2a_postman.Base.{
  is_empty, false, ◌≤◌, trim_space, ap, ◌∙◌, suc, ◌≡◌, refl, inl, inr, some, List, [], ◌∷◌, ◌++◌,
  ok, Result-cases, arith, Option-cases,
}
use tmux_a2a_postman.Journal.{thread_missing, CommittedRecord, Event}
use tmux_a2a_postman.Journal.Replay.{
  Cursor, check_lease, check_event, check_record, check_all, insert_record, sort_records, record_lt,
}

module _ {Raw : Type 0} where
  check_lease_advances :
      (c c' : Cursor) (e : Event Raw) → check_lease c e ≡ ok c' → c'.expected ≡ suc c.expected
  unfolding check_lease
  check_lease_advances c c' e h = ground arith

  pub check_record_advances :
      (c c' : Cursor) (r : CommittedRecord Raw)
      → check_record c r ≡ ok c'
      → (r.sequence ≡ c.expected) × (c'.expected ≡ suc c.expected)
  unfolding check_record check_event
  check_record_advances c c' r h = elim (Option-cases r.event) [
    | inl n ↦ ground arith
    | inr (e, q) ↦ ground (arith, check_lease_advances c c' e)
  ]

  pub check_all-append :
      (c c' : Cursor) (rs : List (CommittedRecord Raw)) (r : CommittedRecord Raw)
      → check_all c rs ≡ ok c'
      → check_all c (rs ++ r ∷ []) ≡ check_record c' r
  unfolding check_all
  check_all-append c c' [] r h = ground arith
  check_all-append c c' (x ∷ xs) r h = elim (Result-cases (check_record c x)) [
    | inl (e, q) ↦ ground arith
    | inr (d, q) ↦ ground (arith, check_all-append d c' xs r)
  ]

  insert_record_last : (r : CommittedRecord Raw) → insert_record r [] ≡ r ∷ []
  unfolding insert_record
  insert_record_last r = refl

  insert_record_first :
      (r x : CommittedRecord Raw) (xs : List (CommittedRecord Raw))
      → x.sequence ≡ suc r.sequence
      → insert_record r (x ∷ xs) ≡ r ∷ x ∷ xs
  unfolding insert_record record_lt
  insert_record_first r x xs h = ground arith

  check_all_head :
      (c c' : Cursor) (x : CommittedRecord Raw) (xs : List (CommittedRecord Raw))
      → check_all c (x ∷ xs) ≡ ok c'
      → x.sequence ≡ c.expected
  unfolding check_all
  check_all_head c c' x xs h = elim (Result-cases (check_record c x)) [
    | inl (e, q) ↦ ground arith
    | inr (d, q) ↦ (check_record_advances c d x q).0
  ]

  -- Records that pass the checks in the order in which they stand are sorted.
  pub sort_records_checked :
      (c c' : Cursor) (rs : List (CommittedRecord Raw))
      → check_all c rs ≡ ok c'
      → sort_records rs ≡ rs
  unfolding check_all sort_records
  sort_records_checked c c' [] h = refl
  sort_records_checked c c' (r ∷ []) h = insert_record_last r
  sort_records_checked c c' (r ∷ x ∷ xs) h = elim (Result-cases (check_record c r)) [
    | inl (e, q) ↦ ground arith
    | inr (d, q) ↦
        let rest : check_all d (x ∷ xs) ≡ ok c' = ground arith in
        ap (insert_record r) (sort_records_checked d c' (x ∷ xs) rest)
        ∙ insert_record_first r x xs
            (ground (arith, check_all_head d c' x xs rest, check_record_advances c d r q))
  ]

  -- A record that is next in line stays behind those that pass the checks.
  pub sort_records_next :
      (c c' : Cursor) (rs : List (CommittedRecord Raw)) (r : CommittedRecord Raw)
      → check_all c rs ≡ ok c'
      → r.sequence ≡ c'.expected
      → sort_records (rs ++ r ∷ []) ≡ rs ++ r ∷ []
  unfolding check_all sort_records
  sort_records_next c c' [] r h n = insert_record_last r
  sort_records_next c c' (x ∷ []) r h n = elim (Result-cases (check_record c x)) [
    | inl (e, q) ↦ ground arith
    | inr (d, q) ↦
        ap (insert_record x) (insert_record_last r)
        ∙ insert_record_first x r [] (ground (arith, check_record_advances c d x q))
  ]
  sort_records_next c c' (x ∷ y ∷ ys) r h n = elim (Result-cases (check_record c x)) [
    | inl (e, q) ↦ ground arith
    | inr (d, q) ↦
        let rest : check_all d (y ∷ ys) ≡ ok c' = ground arith in
        ap (insert_record x) (sort_records_next d c' (y ∷ ys) r rest n)
        ∙ insert_record_first x y (ys ++ r ∷ [])
            (ground (arith, check_all_head d c' y ys rest, check_record_advances c d x q))
  ]

  -- An event that is well formed and next in line stands or falls with its lease.
  pub check_record_next :
      (c : Cursor) (e : Event Raw)
      → e.sequence ≡ c.expected
      → is_empty e.session_key ≡ false
      → 1 ≤ e.generation
      → thread_missing e.type (trim_space e.thread_id) ≡ false
      → check_record c record { name = e.event_id; sequence = e.sequence; event = some e }
        ≡ check_lease c e
  unfolding check_record check_event
  check_record_next c e s k g t = ground arith
