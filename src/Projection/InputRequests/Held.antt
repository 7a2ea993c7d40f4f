-- ===== src/Projection/InputRequests/Held.antt =====
-- How many open requests pass a test, as they are opened, closed and marked.
use tmux_a2a_postman.Base.{
  Bool, some, Text, [], ◌∷◌, ◌≡◌, inl, inr, ◌==◌, if◌then◌else◌, Map, lookup, insert, has_key, ℕ,
  suc, ◌+◌, ◌-◌, ◌≤◌, arith, beq_iff, lookup-insert, NodupKeys, count_values, count_values-insert,
  count_values-delete, insert-NodupKeys, delete-NodupKeys, Option-cases,
}
use tmux_a2a_postman.Envelope.{Metadata}
use tmux_a2a_postman.Projection.InputRequests.{
  Detail, Open, number_at, increment_count, decrement_count, input_request_key,
}
use tmux_a2a_postman.Projection.InputRequests.Answering.{
  marked, mark_input_request_read, open_request, find_exact, close_exact, close_fallback,
  close_answered, mark_first, mark_fallback, mark_by_message,
}

pub number_at-increment :
    (k r : Text) (m : Map ℕ)
    → number_at r (increment_count k m) ≡ number_at r m + (if k == r then 1 else 0)
unfolding increment_count
number_at-increment k r m = ground (arith, beq_iff k r, lookup-insert k r (suc (number_at k m)) m)

pub number_at-decrement :
    (k r : Text) (m : Map ℕ)
    → number_at r (decrement_count k m) ≡ number_at r m - (if k == r then 1 else 0)
unfolding decrement_count
number_at-decrement k r m = ground (arith, beq_iff k r, lookup-insert k r (number_at k m - 1) m)

-- how many open requests pass a test
abbrev pub held : (Detail → Bool) → Open → ℕ
held p o = count_values p o.exact + count_values p o.fallback

abbrev pub NodupOpen : Open → Type 0
NodupOpen o = NodupKeys o.exact × NodupKeys o.fallback

-- Opening adds the request, or puts it in the place of another one.
pub open_request-held :
    (p : Detail → Bool) (m : Metadata) (d : Detail) (o : Open)
    → held p (open_request m d o) ≤ held p o + (if p d then 1 else 0)
unfolding open_request
open_request-held p m d o = ground (
  arith,
  count_values-insert p m.input_request_id d o.exact,
  count_values-insert p (input_request_key m.message_id m.to) d o.fallback,
)

pub open_request-NodupOpen :
    (m : Metadata) (d : Detail) (o : Open) → NodupOpen o → NodupOpen (open_request m d o)
unfolding open_request
open_request-NodupOpen m d o h = ground (
  arith,
  insert-NodupKeys m.input_request_id d o.exact,
  insert-NodupKeys (input_request_key m.message_id m.to) d o.fallback,
)

find_exact_found :
    (requests : Map Detail) (id reply_to participant : Text) (d : Detail)
    → find_exact requests id reply_to participant ≡ some d
    → lookup id requests ≡ some d
unfolding find_exact
find_exact_found requests id reply_to participant d eq = ground arith

-- Closing takes exactly the request that is answered.
pub close_answered-held :
    (p : Detail → Bool) (m : Metadata) (d : Detail) (o o' : Open)
    → NodupOpen o
    → close_answered m o ≡ some (d, o')
    → (held p o' + (if p d then 1 else 0) ≡ held p o) × NodupOpen o'
unfolding close_answered close_exact close_fallback
close_answered-held p m d o o' h eq = ground (
  arith,
  h,
  find_exact_found o.exact m.fills_input_request_id m.reply_to m.from d,
  count_values-delete p m.fills_input_request_id o.exact,
  count_values-delete p (input_request_key m.reply_to m.from) o.fallback,
  delete-NodupKeys m.fills_input_request_id o.exact,
  delete-NodupKeys (input_request_key m.reply_to m.from) o.fallback,
)

-- a change of details that no test sees
module _ (p : Detail → Bool) (mark : Detail → Detail)
    (unseen : (d : Detail) → p (mark d) ≡ p d) where
  mark_first-has_key :
      (k : Text) (m : Metadata) (ds es : Map Detail)
      → mark_first m mark ds ≡ some es
      → has_key k es ≡ has_key k ds
  unfolding mark_first lookup
  mark_first-has_key k m [] es eq = ground arith
  mark_first-has_key k m ((j, d) ∷ ds) es eq = elim (Option-cases (mark_first m mark ds)) [
    | inl n ↦ ground arith
    | inr (later, q) ↦ ground (arith, mark_first-has_key k m ds later q)
  ]

  mark_first-held :
      (m : Metadata) (ds es : Map Detail)
      → NodupKeys ds
      → mark_first m mark ds ≡ some es
      → (count_values p es ≡ count_values p ds) × NodupKeys es
  unfolding mark_first count_values
  mark_first-held m [] es h eq = ground arith
  mark_first-held m ((j, d) ∷ ds) es h eq = elim (Option-cases (mark_first m mark ds)) [
    | inl n ↦ ground (arith, unseen d)
    | inr (later, q) ↦
        ground
          (arith, unseen d, mark_first-held m ds later h.1 q, mark_first-has_key j m ds later q)
  ]

  replaced :
      (k : Text) (d : Detail) (ds : Map Detail)
      → NodupKeys ds
      → lookup k ds ≡ some d
      → (count_values p (insert k (mark d) ds) ≡ count_values p ds)
        × NodupKeys (insert k (mark d) ds)
  replaced k d ds h q =
      ground
        (arith, unseen d, count_values-insert p k (mark d) ds, insert-NodupKeys k (mark d) ds h)

  mark_fallback-held :
      (m : Metadata) (o : Open)
      → NodupOpen o
      → (held p (mark_fallback m mark o) ≡ held p o) × NodupOpen (mark_fallback m mark o)
  unfolding mark_fallback
  mark_fallback-held m o h =
      elim (Option-cases (lookup (input_request_key m.message_id m.to) o.fallback)) [
        | inl n ↦ ground (arith, h)
        | inr (d, q) ↦
            ground (arith, h, replaced (input_request_key m.message_id m.to) d o.fallback h.1 q)
      ]

  pub mark_by_message-held :
      (m : Metadata) (o : Open)
      → NodupOpen o
      → (held p (mark_by_message m mark o) ≡ held p o) × NodupOpen (mark_by_message m mark o)
  unfolding mark_by_message
  mark_by_message-held m o h = elim (Option-cases (mark_first m mark o.exact)) [
    | inl n ↦ ground (arith, h, mark_fallback-held m o h)
    | inr (es, q) ↦ ground (arith, h, mark_first-held m o.exact es h.0 q)
  ]

pub mark_input_request_read-held :
    (p : Detail → Bool) (m : Metadata) (at event_id : Text) (o : Open)
    → ((d : Detail) → p (marked at event_id d) ≡ p d)
    → NodupOpen o
    → (held p (mark_input_request_read m at event_id o) ≡ held p o)
      × NodupOpen (mark_input_request_read m at event_id o)
unfolding mark_input_request_read
mark_input_request_read-held p m at event_id o u h =
    elim (Option-cases (lookup m.input_request_id o.exact)) [
      | inl n ↦ ground (arith, h, mark_by_message-held p (marked at event_id) u m o h)
      | inr (d, q) ↦ ground (
        arith,
        h,
        mark_by_message-held p (marked at event_id) u m o h,
        replaced p (marked at event_id) u m.input_request_id d o.exact h.0 q,
      )
    ]
