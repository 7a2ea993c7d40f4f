-- ===== src/Projection/VerdictDebt/Counts.antt =====
-- The counts of a requester's debts are those of its items.
use tmux_a2a_postman.Base.{
  Option, Text, List, [], ◌∷◌, ◌++◌, ◌≡◌, refl, inl, inr, ◌==◌, if◌then◌else◌, Map, lookup, ℕ, suc,
  ◌+◌, ◌≤◌, arith, beq_iff, lookup-insert, count_values, Option-cases, map, count_if, length,
}
use tmux_a2a_postman.Projection.InputRequests.Satisfied.{request_satisfaction_age_seconds}
use tmux_a2a_postman.Projection.VerdictDebt.{
  DebtItem, RequesterDebt, debt_at, add_item, insert_item, sort_items, with_age, add_items,
  projected_debts,
}

insert_item-counts :
    (i : DebtItem) (is : List DebtItem)
    → (length (insert_item i is) ≡ suc (length is))
      × (count_if (λ j. j.expired) (insert_item i is)
          ≡ count_if (λ j. j.expired) is + (if i.expired then 1 else 0))
unfolding insert_item count_if
insert_item-counts i [] = ground arith
insert_item-counts i (j ∷ js) = ground (arith, insert_item-counts i js)

sort_items-counts :
    (is : List DebtItem)
    → (length (sort_items is) ≡ length is)
      × (count_if (λ j. j.expired) (sort_items is) ≡ count_if (λ j. j.expired) is)
unfolding sort_items count_if
sort_items-counts [] = (refl, refl)
sort_items-counts (i ∷ is) =
    ground (arith, sort_items-counts is, insert_item-counts i (sort_items is))

append-counts :
    (is : List DebtItem) (i : DebtItem)
    → (length (is ++ i ∷ []) ≡ suc (length is))
      × (count_if (λ j. j.expired) (is ++ i ∷ [])
          ≡ count_if (λ j. j.expired) is + (if i.expired then 1 else 0))
unfolding count_if
append-counts [] i = ground arith
append-counts (j ∷ js) i = ground (arith, append-counts js i)

expired_bound : (is : List DebtItem) → count_if (λ j. j.expired) is ≤ length is
unfolding count_if
expired_bound [] = omega arith
expired_bound (i ∷ is) = ground (arith, expired_bound is)

-- The counts are those of the items.
abbrev Counted : RequesterDebt → Type 0
Counted d =
    (d.unstamped_count ≡ length d.items) × (d.expired_count ≡ count_if (λ j. j.expired) d.items)

add_item-Counted :
    (i : DebtItem) (m : Map RequesterDebt) (r : Text)
    → ((k : Text) → Counted (debt_at k m))
    → Counted (debt_at r (add_item i m))
      × ((debt_at r (add_item i m)).unstamped_count
          ≡ (debt_at r m).unstamped_count + (if i.requester == r then 1 else 0))
unfolding add_item
add_item-Counted i m r h =
    let d = debt_at i.requester m in
    let d' : RequesterDebt = record {
      unstamped_count = suc d.unstamped_count;
      expired_count = if i.expired then suc d.expired_count else d.expired_count;
      items = d.items ++ i ∷ [];
    } in
    ground (
      arith,
      h r,
      h i.requester,
      beq_iff i.requester r,
      lookup-insert i.requester r d' m,
      append-counts d.items i,
    )

sorted-Counted : (d : RequesterDebt) → Counted d → Counted (record d { items = sort_items d.items })
sorted-Counted d h = ground (arith, h, sort_items-counts d.items)

debt_at-map :
    (r : Text) (m : Map RequesterDebt)
    → debt_at r (map (λ (k, d). (k, record d { items = sort_items d.items })) m)
      ≡ (let d = debt_at r m in record d { items = sort_items d.items })
unfolding lookup sort_items
debt_at-map r [] = refl
debt_at-map r ((k, d) ∷ m) = ground (arith, debt_at-map r m)

module _ (parse_time : Text → Option ℕ) (whole_seconds : ℕ → ℕ → ℕ) (now grace : ℕ) where
  with_age_requester :
      (i : DebtItem) → (with_age parse_time whole_seconds now grace i).requester ≡ i.requester
  unfolding with_age
  with_age_requester i =
      elim (Option-cases
        (request_satisfaction_age_seconds parse_time whole_seconds i.filled_at now)) [
          | inl n ↦ ground arith
          | inr (age, q) ↦ ground arith
        ]

  add_items-Counted :
      (is : Map DebtItem) (m : Map RequesterDebt) (r : Text)
      → ((k : Text) → Counted (debt_at k m))
      → Counted (debt_at r (add_items parse_time whole_seconds now grace is m))
        × ((debt_at r (add_items parse_time whole_seconds now grace is m)).unstamped_count
            ≡ (debt_at r m).unstamped_count + count_values (λ i. i.requester == r) is)
  unfolding add_items count_values
  add_items-Counted [] m r h = ground (arith, h r)
  add_items-Counted ((k, i) ∷ is) m r h =
      let j = with_age parse_time whole_seconds now grace i in
      let rest = add_items-Counted is (add_item j m) r (λ k'. (add_item-Counted j m k' h).0) in
      ground (arith, rest, (add_item-Counted j m r h).1, with_age_requester i)

  -- What is reported of a requester: its items, with how many there are and how many have expired, and
  -- there is one for each of its open debts, of which no more have expired than there are.
  pub projected_debts_counts :
      (debts : Map DebtItem) (r : Text)
      → let d = debt_at r (projected_debts parse_time whole_seconds now grace debts) in
        (d.unstamped_count ≡ length d.items)
        × (d.expired_count ≡ count_if (λ j. j.expired) d.items)
        × (d.unstamped_count ≡ count_values (λ i. i.requester == r) debts)
        × (d.expired_count ≤ d.unstamped_count)
  unfolding projected_debts lookup
  projected_debts_counts debts r =
      let m = add_items parse_time whole_seconds now grace debts [] in
      let e = debt_at r m in
      let h = add_items-Counted debts [] r (λ k. unfold lookup count_if in (refl, refl)) in
      let s = sorted-Counted e h.0 in
      rw (debt_at-map r m) (ground (arith, h, s, expired_bound (sort_items e.items)))
