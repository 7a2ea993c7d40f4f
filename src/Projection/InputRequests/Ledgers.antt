-- ===== src/Projection/InputRequests/Ledgers.antt =====
-- The counts of how requests are answered: what is opened is filled, open, or was replaced.
use tmux_a2a_postman.Base.{
  sym, subst, Bool, true, false, not, Option, none, some, Text, [], ◌∷◌, ◌≡◌, inl, inr, ◌==◌,
  if◌then◌else◌, Map, lookup, insert, ℕ, suc, ◌+◌, ◌≤◌, arith, beq_iff, lookup-insert, count_values,
  Option-cases, map, eqb,
}
use tmux_a2a_postman.Envelope.{Metadata}
use tmux_a2a_postman.Projection.InputRequests.{
  default_stale_after_seconds, resolve_reply_policy, is_required, Detail, Open, Satisfaction,
  satisfaction_at, no_direction, opened_detail,
}
use tmux_a2a_postman.Projection.InputRequests.Answering.{close_answered}
use tmux_a2a_postman.Projection.InputRequests.Satisfied.{
  Ledger, open_request_satisfaction, find_open_request_satisfaction, count_dead_letter,
  count_found_dead_letter, dead_letter_request_satisfaction, filled_stats,
  fill_request_satisfaction, aged, open_stats, add_open_request_satisfaction, add_all_open,
  averaged, finalize_request_satisfaction, request_satisfaction_age_seconds,
}
use tmux_a2a_postman.Projection.InputRequests.Held.{
  held, NodupOpen, open_request-held, open_request-NodupOpen, close_answered-held,
}

abbrev pub goes_to : Text → Detail → Bool
goes_to r d = d.recipient == r

-- No recipient has more requests filled and unsatisfied than opened; what counts the open ones is
-- still zero.
pub record IsBalanced (l : Ledger) : Type 0 where
  pub balanced :
      (r : Text)
      → (satisfaction_at r l.satisfaction).filled_count + held (goes_to r) l.unsatisfied
        ≤ (satisfaction_at r l.satisfaction).opened_count
  pub unfinished :
      (r : Text)
      → ((satisfaction_at r l.satisfaction).open_count ≡ 0)
        × ((satisfaction_at r l.satisfaction).stale_open_count ≡ 0)
  pub nodup : NodupOpen l.unsatisfied

satisfaction_at-insert :
    (k r : Text) (s : Satisfaction) (m : Map Satisfaction)
    → satisfaction_at r (insert k s m) ≡ (if k == r then s else satisfaction_at r m)
satisfaction_at-insert k r s m = ground (arith, lookup-insert k r s m)

pub open_request_satisfaction-IsBalanced :
    (m : Metadata) (at source event_id : Text) (l : Ledger)
    → IsBalanced l
    → IsBalanced (open_request_satisfaction m at source event_id l)
unfolding open_request_satisfaction opened_detail
open_request_satisfaction-IsBalanced m at source event_id l h =
    let d = opened_detail m no_direction at source event_id in
    let stats = satisfaction_at m.to l.satisfaction in
    let one_more = record stats { opened_count = suc stats.opened_count } in
    record {
      balanced = λ r. ground (
        arith,
        beq_iff m.to r,
        h.balanced r,
        open_request-held (goes_to r) m d l.unsatisfied,
        satisfaction_at-insert m.to r one_more l.satisfaction,
      );
      unfinished = λ r. ground (
        arith,
        beq_iff m.to r,
        h.unfinished r,
        satisfaction_at-insert m.to r one_more l.satisfaction,
      );
      nodup = open_request-NodupOpen m d l.unsatisfied h.nodup;
    }

count_dead_letter-IsBalanced :
    (d : Detail) (l : Ledger) → IsBalanced l → IsBalanced (count_dead_letter d l)
unfolding count_dead_letter
count_dead_letter-IsBalanced d l h =
    let stats = satisfaction_at d.recipient l.satisfaction in
    let one_more = record stats { dead_lettered_count = suc stats.dead_lettered_count } in
    record {
      balanced = λ r. ground (
        arith,
        beq_iff d.recipient r,
        h.balanced r,
        satisfaction_at-insert d.recipient r one_more l.satisfaction,
      );
      unfinished = λ r. ground (
        arith,
        beq_iff d.recipient r,
        h.unfinished r,
        satisfaction_at-insert d.recipient r one_more l.satisfaction,
      );
      nodup = h.nodup;
    }

count_found_dead_letter-IsBalanced :
    (m : Metadata) (l : Ledger) → IsBalanced l → IsBalanced (count_found_dead_letter m l)
unfolding count_found_dead_letter
count_found_dead_letter-IsBalanced m l h =
    elim (find_open_request_satisfaction m l.unsatisfied)
      as (λ o. IsBalanced (elim o [ none ↦ l | some d ↦ count_dead_letter d l ])) [
        | none ↦ h
        | some d ↦ count_dead_letter-IsBalanced d l h
      ]

pub dead_letter_request_satisfaction-IsBalanced :
    (m : Metadata) (at source event_id : Text) (l : Ledger)
    → IsBalanced l
    → IsBalanced (dead_letter_request_satisfaction m at source event_id l)
unfolding dead_letter_request_satisfaction
dead_letter_request_satisfaction-IsBalanced m at source event_id l h =
    let opened = open_request_satisfaction m at source event_id l in
    let found =
      elim (find_open_request_satisfaction m l.unsatisfied)
        as (λ o.
          IsBalanced
            (elim o [ some d ↦ count_dead_letter d l | none ↦ count_found_dead_letter m opened ])) [
              | some d ↦ count_dead_letter-IsBalanced d l h
              | none ↦
                  count_found_dead_letter-IsBalanced m opened
                    (open_request_satisfaction-IsBalanced m at source event_id l h)
            ] in
    elim (is_required (resolve_reply_policy m))
      as (λ b. IsBalanced (
        if not b then l else elim (find_open_request_satisfaction m l.unsatisfied) [
          | some d ↦ count_dead_letter d l
          | none ↦ count_found_dead_letter m opened
        ])) [ false ↦ h | true ↦ found ]

abbrev counted : ℕ → Satisfaction → Satisfaction
counted stale_after s = record s {
  stale_after_seconds = stale_after;
  open_count = suc s.open_count;
}

-- one request more is open, and at most one more stale
abbrev AddsOpen : Satisfaction → Satisfaction → Type 0
AddsOpen s t =
    (t.filled_count ≡ s.filled_count)
    × (t.opened_count ≡ s.opened_count)
    × (t.open_count ≡ suc s.open_count)
    × (t.stale_open_count ≤ suc s.stale_open_count)

-- how the last turns change what they do not count
aged_counts :
    (stale_after age : ℕ) (s : Satisfaction)
    → let t = aged stale_after age s in
      (t.filled_count ≡ s.filled_count)
      × (t.opened_count ≡ s.opened_count)
      × (t.open_count ≡ s.open_count)
      × (t.stale_open_count ≤ suc s.stale_open_count)
unfolding aged
aged_counts stale_after age s = ground arith

averaged_counts :
    (stale_after : ℕ) (r : Text) (m : Map Satisfaction)
    → let s = satisfaction_at r m in
      let t = satisfaction_at r (map (λ (k, stats). (k, averaged stale_after stats)) m) in
      (t.filled_count ≡ s.filled_count)
      × (t.opened_count ≡ s.opened_count)
      × (t.open_count ≡ s.open_count)
      × (t.stale_open_count ≡ s.stale_open_count)
unfolding lookup averaged
averaged_counts stale_after r [] = ground arith
averaged_counts stale_after r ((k, s) ∷ m) = ground (arith, averaged_counts stale_after r m)

module _ (parse_time : Text → Option ℕ) (whole_seconds : ℕ → ℕ → ℕ) where
  filled_stats_counts :
      (d : Detail) (at : Text) (s : Satisfaction)
      → let t = filled_stats parse_time whole_seconds d at s in
        (t.filled_count ≡ suc s.filled_count)
        × (t.opened_count ≡ s.opened_count)
        × (t.open_count ≡ s.open_count)
        × (t.stale_open_count ≡ s.stale_open_count)
  unfolding filled_stats
  filled_stats_counts d at s = ground arith

  -- the ledger once a request is filled
  abbrev filled : Text → Detail → Open → Ledger → Ledger
  filled at d o l = record {
    unsatisfied = o;
    satisfaction =
        insert d.recipient
          (filled_stats parse_time whole_seconds d at (satisfaction_at d.recipient l.satisfaction))
          l.satisfaction;
  }

  filled-IsBalanced :
      (m : Metadata) (at : Text) (d : Detail) (o : Open) (l : Ledger)
      → IsBalanced l
      → close_answered m l.unsatisfied ≡ some (d, o)
      → IsBalanced (filled at d o l)
  filled-IsBalanced m at d o l h q =
      let stats = satisfaction_at d.recipient l.satisfaction in
      let t = filled_stats parse_time whole_seconds d at stats in
      record {
        balanced = λ r. ground (
          arith,
          beq_iff d.recipient r,
          h.balanced r,
          filled_stats_counts d at stats,
          close_answered-held (goes_to r) m d l.unsatisfied o h.nodup q,
          satisfaction_at-insert d.recipient r t l.satisfaction,
        );
        unfinished = λ r. ground (
          arith,
          beq_iff d.recipient r,
          h.unfinished r,
          h.unfinished d.recipient,
          filled_stats_counts d at stats,
          satisfaction_at-insert d.recipient r t l.satisfaction,
        );
        nodup = (close_answered-held (goes_to []) m d l.unsatisfied o h.nodup q).1;
      }

  pub fill_request_satisfaction-IsBalanced :
      (m : Metadata) (at : Text) (l : Ledger)
      → IsBalanced l
      → IsBalanced (fill_request_satisfaction parse_time whole_seconds m at l)
  unfolding fill_request_satisfaction
  fill_request_satisfaction-IsBalanced m at l h =
      elim (Option-cases (close_answered m l.unsatisfied)) [
        | inl n ↦
            let q : fill_request_satisfaction parse_time whole_seconds m at l ≡ l = ground arith in
            subst IsBalanced (sym q) h
        | inr ((d, o), c) ↦
            let q : fill_request_satisfaction parse_time whole_seconds m at l ≡ filled at d o l =
              ground arith in
            subst IsBalanced (sym q) (filled-IsBalanced m at d o l h c)
      ]

  open_stats_counts :
      (now stale_after : ℕ) (d : Detail) (s : Satisfaction)
      → AddsOpen s (open_stats parse_time whole_seconds now stale_after d s)
  unfolding open_stats
  open_stats_counts now stale_after d s =
      elim (request_satisfaction_age_seconds parse_time whole_seconds d.opened_at now)
        as (λ o. AddsOpen s (elim o [
          | none ↦ counted stale_after s
          | some age ↦ aged stale_after age (counted stale_after s)
        ])) [ none ↦ ground arith | some age ↦ aged_counts stale_after age (counted stale_after s) ]

  -- the number of open requests of a recipient is what is added to its count
  add_all_open_counts :
      (now stale_after : ℕ) (r : Text) (ds : Map Detail) (m : Map Satisfaction)
      → let s = satisfaction_at r m in
        let t = satisfaction_at r (add_all_open parse_time whole_seconds now stale_after ds m) in
        (t.filled_count ≡ s.filled_count)
        × (t.opened_count ≡ s.opened_count)
        × (t.open_count ≡ s.open_count + count_values (goes_to r) ds)
        × (t.stale_open_count ≤ s.stale_open_count + count_values (goes_to r) ds)
  unfolding add_all_open count_values add_open_request_satisfaction
  add_all_open_counts now stale_after r [] m = ground arith
  add_all_open_counts now stale_after r ((k, d) ∷ ds) m =
      let s = satisfaction_at d.recipient m in
      let t = open_stats parse_time whole_seconds now stale_after d s in
      ground (
        arith,
        beq_iff d.recipient r,
        satisfaction_at-insert d.recipient r t m,
        open_stats_counts now stale_after d s,
        add_all_open_counts now stale_after r ds (insert d.recipient t m),
      )

  -- What is reported of a recipient: how many of its requests are open, of which no more are stale,
  -- and no more filled and open than opened.
  pub finalize_request_satisfaction_counts :
      (now stale : ℕ) (l : Ledger) (r : Text)
      → IsBalanced l
      → let t =
          satisfaction_at r (finalize_request_satisfaction parse_time whole_seconds now stale l) in
        (t.open_count ≡ held (goes_to r) l.unsatisfied)
        × (t.stale_open_count ≤ t.open_count)
        × (t.filled_count + t.open_count ≤ t.opened_count)
  unfolding finalize_request_satisfaction
  finalize_request_satisfaction_counts now stale l r h =
      let stale_after = if eqb stale 0 then default_stale_after_seconds else stale in
      let first : Map Satisfaction =
        map (λ (k, stats). (k, averaged stale_after stats)) l.satisfaction in
      let second : Map Satisfaction =
        add_all_open parse_time whole_seconds now stale_after l.unsatisfied.exact first in
      omega (
        arith,
        h.balanced r,
        (h.unfinished r).0,
        (h.unfinished r).1,
        averaged_counts stale_after r l.satisfaction,
        add_all_open_counts now stale_after r l.unsatisfied.exact first,
        add_all_open_counts now stale_after r l.unsatisfied.fallback second,
      )
