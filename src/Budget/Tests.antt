-- ===== src/Budget/Tests.antt =====
-- Runs of the budget from its start.
use tmux_a2a_postman.Base.{◌+◌, ◌*◌, ◌≤◌, ◌≡◌, true, refl, codes}
use tmux_a2a_postman.Budget.{finish, Budget, new_budget, post, try_start, snapshot, sem}
use tmux_a2a_postman.Budget.Bounds.{
  none_running, one_more, Reachable, initially, start, deliveries_bounded, finish_makes_room,
}

abbrev one_post : Budget
one_post = (try_start (codes "now") post new_budget).0

one_post_starts : (try_start (codes "now") post new_budget).1 ≡ true
unfolding try_start sem
one_post_starts = refl

one_post_reachable : Reachable one_post (one_more post none_running)
one_post_reachable = start new_budget none_running (codes "now") post initially one_post_starts

deliveries_bounded_example :
    let d = snapshot one_post in
    (d.active_post_count ≡ 1)
    × (d.active_auto_ping_count ≡ 0)
    × (d.active_manual_ping_count ≡ 0)
    × (1 ≤ d.worker_limit)
    × (0 ≤ d.worker_limit)
    × (0 ≤ d.worker_limit)
    × (1 + 0 + 0 ≤ 3 * d.worker_limit)
deliveries_bounded_example =
    deliveries_bounded one_post (one_more post none_running) one_post_reachable

finish_makes_room_example : (try_start (codes "now") post (finish post one_post)).1 ≡ true
finish_makes_room_example =
    finish_makes_room one_post none_running (codes "now") post one_post_reachable
