-- ===== src/Submit/Dispatch/Tests.antt =====
-- The dispatcher on concrete requests.
use mathlib.Core.List.Memᴰ
use tmux_a2a_postman.Base.{
  inl, insert, lookup, ◌+◌, ◌≤◌, ◌≡◌, refl, some, Text, List, [], ◌∷◌, codes, arith, ◌==◌, ◌++◌,
  if◌then◌else◌, length,
}
use tmux_a2a_postman.Submit.{SubmitRequest, submit_pop}
use tmux_a2a_postman.Submit.Dispatch.{
  Dispatcher, Reader, new_dispatcher, dispatch_daemon_submit_request, daemon_submit_dispatch_key,
  deferred, dispatch_pending, is_active_key, daemon_submit_session_dir,
}
use tmux_a2a_postman.Submit.Dispatch.Steps.{
  started, after, dispatching, in_flight, reachable-Exclusive,
}
use tmux_a2a_postman.Submit.Dispatch.Pops.{IsPopOf, pops_exclusive}
use tmux_a2a_postman.Submit.Dispatch.Coverage.{total_pending}
use tmux_a2a_postman.Submit.Dispatch.Rounds.{IsDone, dispatch_pending-IsDone}

abbrev pop_of : Text → SubmitRequest
pop_of node = record {
  request_id = codes "r1";
  command = submit_pop;
  created_at = [];
  filename = [];
  sender = [];
  node = node;
  content = [];
}

abbrev path_of : Text → Text
path_of name = codes "/s/main/snapshot/daemon-submit/requests/" ++ name

-- every request is a pop for bob, but the one named c.json
abbrev reader : Reader
reader path = some (pop_of (if path == path_of (codes "c.json") then codes "eve" else codes "bob"))

pop_key : daemon_submit_dispatch_key reader (path_of (codes "a.json")) ≡ codes "pop:/s/main:bob"
unfolding daemon_submit_dispatch_key ◌==◌
pop_key = refl

abbrev first_pop : Dispatcher
first_pop = (dispatch_daemon_submit_request reader (path_of (codes "a.json")) (new_dispatcher 2)).1

second_pop_waits :
    (dispatch_daemon_submit_request reader (path_of (codes "b.json")) first_pop).0 ≡ deferred
unfolding daemon_submit_dispatch_key dispatch_daemon_submit_request lookup new_dispatcher insert
    ◌==◌
second_pop_waits = refl

reachable-Exclusive_example :
    ((k : Text) → in_flight k first_pop ≡ (if is_active_key k first_pop then 1 else 0))
    × (length first_pop.running + first_pop.releasing ≤ 2)
reachable-Exclusive_example =
    reachable-Exclusive 2 first_pop
      (after started (dispatching reader (path_of (codes "a.json")) (new_dispatcher 2)))

first_is_pop : IsPopOf reader (path_of (codes "a.json")) (codes "/s/main") (codes "bob")
unfolding ◌==◌ daemon_submit_session_dir
first_is_pop = record {
  request = pop_of (codes "bob");
  is_read = refl;
  in_session = refl;
  is_pop = refl;
  of_node = refl;
}

second_is_pop : IsPopOf reader (path_of (codes "b.json")) (codes "/s/main") (codes "bob")
unfolding ◌==◌ daemon_submit_session_dir
second_is_pop = record {
  request = pop_of (codes "bob");
  is_read = refl;
  in_session = refl;
  is_pop = refl;
  of_node = refl;
}

pops_exclusive_example :
    dispatch_daemon_submit_request reader (path_of (codes "b.json")) first_pop
    ≡ (deferred, first_pop)
unfolding dispatch_daemon_submit_request lookup new_dispatcher ◌==◌
pops_exclusive_example =
    pops_exclusive 2 first_pop reader reader (path_of (codes "a.json")) (path_of (codes "b.json"))
      (codes "/s/main") (codes "bob")
      (after started (dispatching reader (path_of (codes "a.json")) (new_dispatcher 2)))
      first_is_pop second_is_pop (inl (Memᴰ.head refl))

abbrev sessions : List (List Text)
sessions =
    (path_of (codes "a.json") ∷ path_of (codes "b.json") ∷ path_of (codes "c.json") ∷ []) ∷ [] ∷ []

dispatch_pending-IsDone_example :
    IsDone reader 2 sessions (dispatch_pending reader 4 sessions (new_dispatcher 2))
unfolding daemon_submit_dispatch_key total_pending
dispatch_pending-IsDone_example =
    dispatch_pending-IsDone reader 2 4 sessions (new_dispatcher 2) started (omega arith)
