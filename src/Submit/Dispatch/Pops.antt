-- ===== src/Submit/Dispatch/Pops.antt =====
-- Pops of one inbox exclude each other: daemonSubmitDispatchKey of internal/daemon/runtime.go.
use mathlib.Core.List.{Memᴰ}
use mathlib.Core.List.Memᴰ
use tmux_a2a_postman.Base.{
  ◌∙◌, ap, sym, subst, ◌≤◌, true, false, some, Text, List, [], ◌∷◌, ◌==◌, ◌≡◌, ◌⊎◌, inl, inr,
  count_if, arith, beq_refl, ℕ,
}
use tmux_a2a_postman.Submit.{SubmitRequest, submit_pop}
use tmux_a2a_postman.Submit.Dispatch.{
  deferred, Job, Dispatcher, Reader, dispatch_daemon_submit_request, dispatch_keyed, is_active_key,
  daemon_submit_dispatch_key, daemon_submit_session_dir, key_of_request,
  is_runtime_diagnostics_submit_request,
}
use tmux_a2a_postman.Submit.Dispatch.Steps.{Reachable, has_key_of, reachable-Exclusive}

-- The request file is read as a pop of a node's inbox in a session.
pub record IsPopOf (read : Reader) (path session_dir node : Text) : Type 0 where
  pub request : SubmitRequest
  pub is_read : read path ≡ some request
  pub in_session : daemon_submit_session_dir path ≡ some session_dir
  pub is_pop : request.command ≡ submit_pop
  pub of_node : request.node ≡ node

-- The key of a pop is that of its inbox.
key-pop :
    (read read' : Reader) (path path' session_dir node : Text)
    → IsPopOf read path session_dir node
    → IsPopOf read' path' session_dir node
    → daemon_submit_dispatch_key read path ≡ daemon_submit_dispatch_key read' path'
unfolding daemon_submit_dispatch_key key_of_request
key-pop read read' path path' session_dir node p p' = ground (
  arith,
  p.is_read,
  p.in_session,
  p.is_pop,
  p'.is_read,
  p'.in_session,
  p'.is_pop,
  p.of_node ∙ sym p'.of_node,
)

pop-not-diagnostics :
    (read : Reader) (path session_dir node : Text)
    → IsPopOf read path session_dir node
    → is_runtime_diagnostics_submit_request read path ≡ false
unfolding is_runtime_diagnostics_submit_request
pop-not-diagnostics read path session_dir node p = ground (arith, p.is_read, p.is_pop)

count_if-member :
    (k : Text) (j : Job) (js : List Job)
    → Memᴰ j js
    → j.dispatch_key ≡ k
    → 1 ≤ count_if (has_key_of k) js
unfolding count_if
count_if-member k j [] m e = absurd (Memᴰ.not-nil m)
count_if-member k j (x ∷ js) (Memᴰ.head c) e =
    let same : (x.dispatch_key == k) ≡ true =
      subst (λ y. (y == k) ≡ true) (sym e ∙ ap (λ y. y.dispatch_key) c) (beq_refl k) in
    ground (arith, same)
count_if-member k j (x ∷ js) (Memᴰ.tail m) e = ground (arith, count_if-member k j js m e)

in_flight-active :
    (limit : ℕ) (s : Dispatcher) (k : Text) (j : Job)
    → Reachable limit s
    → Memᴰ j s.running ⊎ Memᴰ j s.results
    → j.dispatch_key ≡ k
    → is_active_key k s ≡ true
in_flight-active limit s k j r (inl m) e =
    ground (arith, (reachable-Exclusive limit s r).0 k, count_if-member k j s.running m e)
in_flight-active limit s k j r (inr m) e =
    ground (arith, (reachable-Exclusive limit s r).0 k, count_if-member k j s.results m e)

-- Whatever the order of dispatches, results and releases before: while a request that was read as a pop
-- of an inbox when it was dispatched runs or waits for its result to be handled, every request that
-- is read as a pop of that inbox is deferred and changes nothing, so two pops of one inbox never overlap.
pub pops_exclusive :
    (limit : ℕ) (s : Dispatcher) (read read' : Reader) (path path' session_dir node : Text)
    → Reachable limit s
    → IsPopOf read path session_dir node
    → IsPopOf read' path' session_dir node
    → (let j : Job = record {
      request_path = path;
      dispatch_key = daemon_submit_dispatch_key read path;
    } in
        Memᴰ j s.running ⊎ Memᴰ j s.results)
    → dispatch_daemon_submit_request read' path' s ≡ (deferred, s)
unfolding dispatch_daemon_submit_request dispatch_keyed
pops_exclusive limit s read read' path path' session_dir node r p p' m =
    let k = daemon_submit_dispatch_key read' path' in
    let j : Job = record {
      request_path = path;
      dispatch_key = daemon_submit_dispatch_key read path;
    } in
    let active =
      in_flight-active limit s k j r m (key-pop read read' path path' session_dir node p p') in
    ground (arith, active, pop-not-diagnostics read' path' session_dir node p')
