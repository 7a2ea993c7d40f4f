-- ===== src/Router/Laws.antt =====
-- What resolving an address promises its callers: internal/router/router.go.
use tmux_a2a_postman.Base.{◌≡◌, ◌≢◌, ◌↔◌, true, false, arith, Text}
use tmux_a2a_postman.Address.{split, full}
use tmux_a2a_postman.Router.{failure_none, unknown_session, ExistsFunc, holds_at, resolve}

-- The resolved address is the full form of the given one, and it is found exactly when the node
-- predicate is given and accepts that form.
resolve-found :
    (a s : Text) (nodes sessions : ExistsFunc)
    → ((resolve a s nodes sessions).address ≡ full a s)
      × ((resolve a s nodes sessions).found ≡ holds_at nodes (full a s))
      × (((resolve a s nodes sessions).failure_reason ≡ failure_none)
          ↔ ((resolve a s nodes sessions).found ≡ true))
unfolding resolve full
resolve-found a s nodes sessions = ground arith

-- A bare address is looked up in the source session alone: it resolves to that session, is never
-- explicit, and never fails for an unknown session.
resolve_bare_stays :
    (a s : Text) (nodes sessions : ExistsFunc)
    → (split a).has_session ≡ false
    → ((resolve a s nodes sessions).session_name ≡ s)
      × ((resolve a s nodes sessions).explicit_session ≡ false)
      × ((resolve a s nodes sessions).failure_reason ≢ unknown_session)
unfolding resolve
resolve_bare_stays a s nodes sessions h = ground arith
