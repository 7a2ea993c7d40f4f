-- ===== src/Budget/Bounds.antt =====
-- How many deliveries can be in flight: every interleaving of workers that start, finish and queue.
use tmux_a2a_postman.Base.{
  if◌then◌else◌, ◌*◌, ◌+◌, refl, ltb, ℕ, suc, ◌≤◌, ◌≡◌, true, false, Text, arith,
}
use tmux_a2a_postman.Budget.{
  record_saturation_once, worker_limit, snapshot, queue_manual, DeliveryPath, post, auto_ping,
  manual_ping, other_path, Semaphore, Budget, new_budget, default_daemon_submit_worker_limit, sem,
  set_sem, record_saturation, try_start, finish, queue, unqueue, begin_manual_fanout,
  finish_manual_fanout,
}

-- how many deliveries of each path are running
pub record InFlight : Type 0 where
  pub posts : ℕ
  pub auto_pings : ℕ
  pub manual_pings : ℕ

abbrev pub none_running : InFlight
none_running = record { posts = 0; auto_pings = 0; manual_pings = 0 }

abbrev pub one_more : DeliveryPath → InFlight → InFlight
one_more post f = record f { posts = suc f.posts }
one_more auto_ping f = record f { auto_pings = suc f.auto_pings }
one_more manual_ping f = record f { manual_pings = suc f.manual_pings }
one_more (other_path t) f = f

-- A delivery starts when `try_start` lets it, and finishes once; the rest only counts. A fanout
-- begins when the fanout lock is free.
pub data Reachable : Budget → InFlight → Type 0 where
  initially : Reachable new_budget none_running
  start :
      (b : Budget) (f : InFlight) (now : Text) (p : DeliveryPath)
      → Reachable b f
      → (try_start now p b).1 ≡ true
      → Reachable (try_start now p b).0 (one_more p f)
  refuse :
      (b : Budget) (f : InFlight) (now : Text) (p : DeliveryPath)
      → Reachable b f
      → (try_start now p b).1 ≡ false
      → Reachable (try_start now p b).0 f
  done :
      (b : Budget) (f : InFlight) (p : DeliveryPath)
      → Reachable b (one_more p f)
      → Reachable (finish p b) f
  enqueue : (b : Budget) (f : InFlight) (p : DeliveryPath) → Reachable b f → Reachable (queue p b) f
  dequeue :
      (b : Budget) (f : InFlight) (p : DeliveryPath) → Reachable b f → Reachable (unqueue p b) f
  begin_fanout :
      (b : Budget) (f : InFlight) (now : Text) (total : ℕ)
      → Reachable b f
      → b.manual_fanout_locked ≡ false
      → Reachable (begin_manual_fanout now total b).0 f
  finish_fanout :
      (b : Budget) (f : InFlight)
      → Reachable b f
      → b.manual_fanout_locked ≡ true
      → Reachable (finish_manual_fanout b) f

-- Every semaphore holds one value for each delivery in flight, and never more than its capacity.
abbrev Guards : Semaphore → ℕ → Type 0
Guards s n = (s.held ≡ n) × (n ≤ s.capacity) × (s.capacity ≡ default_daemon_submit_worker_limit)

pub record IsSound (b : Budget) (f : InFlight) : Type 0 where
  pub on_posts : Guards b.post_sem f.posts
  pub on_auto_pings : Guards b.auto_ping_sem f.auto_pings
  pub on_manual_pings : Guards b.manual_ping_sem f.manual_pings
  -- the flag of a fanout is up only while its lock is held
  pub flagged : b.manual_saturated_hit ≡ true → b.manual_fanout_locked ≡ true

IsSound-start :
    (now : Text) (p : DeliveryPath) (b : Budget) (f : InFlight)
    → IsSound b f
    → (try_start now p b).1 ≡ true
    → IsSound (try_start now p b).0 (one_more p f)
unfolding try_start sem set_sem record_saturation
IsSound-start now post b f h e = ground (arith, h.on_posts, h.flagged)
IsSound-start now auto_ping b f h e = ground (arith, h.on_auto_pings, h.flagged)
IsSound-start now manual_ping b f h e = ground (arith, h.on_manual_pings, h.flagged)
IsSound-start now (other_path t) b f h e = h

IsSound-refuse :
    (now : Text) (p : DeliveryPath) (b : Budget) (f : InFlight)
    → IsSound b f
    → (try_start now p b).1 ≡ false
    → IsSound (try_start now p b).0 f
unfolding try_start sem set_sem record_saturation
IsSound-refuse now post b f h e = ground (arith, h.flagged)
IsSound-refuse now auto_ping b f h e = ground (arith, h.flagged)
IsSound-refuse now manual_ping b f h e = ground (arith, h.flagged)
IsSound-refuse now (other_path t) b f h e = h

IsSound-done :
    (p : DeliveryPath) (b : Budget) (f : InFlight)
    → IsSound b (one_more p f)
    → IsSound (finish p b) f
unfolding finish sem set_sem
IsSound-done post b f h = ground (arith, h.flagged)
IsSound-done auto_ping b f h = ground (arith, h.flagged)
IsSound-done manual_ping b f h = ground (arith, h.flagged)
IsSound-done (other_path t) b f h = h

-- what only counts
IsSound-counts :
    (b c : Budget) (f : InFlight)
    → IsSound b f
    → c.post_sem ≡ b.post_sem
    → c.auto_ping_sem ≡ b.auto_ping_sem
    → c.manual_ping_sem ≡ b.manual_ping_sem
    → (c.manual_saturated_hit ≡ true → c.manual_fanout_locked ≡ true)
    → IsSound c f
IsSound-counts b c f h p q r g = record {
  on_posts = rw p h.on_posts;
  on_auto_pings = rw q h.on_auto_pings;
  on_manual_pings = rw r h.on_manual_pings;
  flagged = g;
}

IsSound-begin :
    (now : Text) (total : ℕ) (b : Budget) (f : InFlight)
    → IsSound b f
    → IsSound (begin_manual_fanout now total b).0 f
unfolding begin_manual_fanout queue_manual record_saturation_once
IsSound-begin now total b f h = ground (arith, h.on_posts, h.on_auto_pings, h.on_manual_pings)

IsSound-queue : (p : DeliveryPath) (b : Budget) (f : InFlight) → IsSound b f → IsSound (queue p b) f
unfolding queue
IsSound-queue post b f h = IsSound-counts b _ f h refl refl refl h.flagged
IsSound-queue auto_ping b f h = IsSound-counts b _ f h refl refl refl h.flagged
IsSound-queue manual_ping b f h = IsSound-counts b _ f h refl refl refl h.flagged
IsSound-queue (other_path t) b f h = h

IsSound-unqueue :
    (p : DeliveryPath) (b : Budget) (f : InFlight) → IsSound b f → IsSound (unqueue p b) f
unfolding unqueue
IsSound-unqueue post b f h = IsSound-counts b _ f h refl refl refl h.flagged
IsSound-unqueue auto_ping b f h = IsSound-counts b _ f h refl refl refl h.flagged
IsSound-unqueue manual_ping b f h = IsSound-counts b _ f h refl refl refl h.flagged
IsSound-unqueue (other_path t) b f h = h

pub Reachable-IsSound : {b : Budget} {f : InFlight} → Reachable b f → IsSound b f
unfolding finish_manual_fanout
Reachable-IsSound initially = record {
  on_posts = (refl, omega arith, refl);
  on_auto_pings = (refl, omega arith, refl);
  on_manual_pings = (refl, omega arith, refl);
  flagged = λ e. ground arith;
}
Reachable-IsSound (start b f now p r e) = IsSound-start now p b f (Reachable-IsSound r) e
Reachable-IsSound (refuse b f now p r e) = IsSound-refuse now p b f (Reachable-IsSound r) e
Reachable-IsSound (done b f p r) = IsSound-done p b f (Reachable-IsSound r)
Reachable-IsSound (enqueue b f p r) = IsSound-queue p b f (Reachable-IsSound r)
Reachable-IsSound (dequeue b f p r) = IsSound-unqueue p b f (Reachable-IsSound r)
Reachable-IsSound (begin_fanout b f now total r e) =
    IsSound-begin now total b f (Reachable-IsSound r)
Reachable-IsSound (finish_fanout b f r e) =
    IsSound-counts b _ f (Reachable-IsSound r) refl refl refl (λ x. ground arith)

-- In every reachable state at most the worker limit of deliveries runs on each path, at most three
-- times that in all, and the status shows exactly the running ones.
pub deliveries_bounded :
    (b : Budget) (f : InFlight)
    → Reachable b f
    → let d = snapshot b in
      (d.active_post_count ≡ f.posts)
      × (d.active_auto_ping_count ≡ f.auto_pings)
      × (d.active_manual_ping_count ≡ f.manual_pings)
      × (f.posts ≤ d.worker_limit)
      × (f.auto_pings ≤ d.worker_limit)
      × (f.manual_pings ≤ d.worker_limit)
      × (f.posts + f.auto_pings + f.manual_pings ≤ 3 * d.worker_limit)
unfolding snapshot worker_limit
deliveries_bounded b f r =
    let s = Reachable-IsSound r in ground (arith, s.on_posts, s.on_auto_pings, s.on_manual_pings)

-- how many deliveries run on a path
abbrev pub running : DeliveryPath → InFlight → ℕ
running post f = f.posts
running auto_ping f = f.auto_pings
running manual_ping f = f.manual_pings
running (other_path t) f = 0

-- In a reachable state a delivery may start on a path exactly if fewer than the worker limit run on
-- that path, however many run on the others.
try_start_iff_room :
    (b : Budget) (f : InFlight) (now : Text) (p : DeliveryPath)
    → Reachable b f
    → (try_start now p b).1 ≡ ltb (running p f) (worker_limit b)
unfolding try_start sem worker_limit
try_start_iff_room b f now post r = let s = Reachable-IsSound r in ground (arith, s.on_posts)
try_start_iff_room b f now auto_ping r =
    let s = Reachable-IsSound r in ground (arith, s.on_posts, s.on_auto_pings)
try_start_iff_room b f now manual_ping r =
    let s = Reachable-IsSound r in ground (arith, s.on_posts, s.on_manual_pings)
try_start_iff_room b f now (other_path t) r =
    let s = Reachable-IsSound r in ground (arith, s.on_posts)

-- what finishes leaves room
room :
    (b : Budget) (f : InFlight) (p : DeliveryPath)
    → IsSound b (one_more p f)
    → ltb (running p f) (worker_limit (finish p b)) ≡ true
unfolding worker_limit finish sem set_sem
room b f post s = ground (arith, s.on_posts)
room b f auto_ping s = ground (arith, s.on_posts, s.on_auto_pings)
room b f manual_ping s = ground (arith, s.on_posts, s.on_manual_pings)
room b f (other_path t) s = ground (arith, s.on_posts)

-- In a reachable state, once a delivery finishes, another one may start on its path.
pub finish_makes_room :
    (b : Budget) (f : InFlight) (now : Text) (p : DeliveryPath)
    → Reachable b (one_more p f)
    → (try_start now p (finish p b)).1 ≡ true
finish_makes_room b f now p r =
    let t = done b f p r in rw (try_start_iff_room _ f now p t) (room b f p (Reachable-IsSound r))

-- In a reachable state a fanout that may begin counts as saturated exactly if it asks for more than
-- the worker limit, starts as many as that allows, and queues all.
begin_manual_fanout_lem :
    (b : Budget) (f : InFlight) (now : Text) (total : ℕ)
    → Reachable b f
    → b.manual_fanout_locked ≡ false
    → let (c, n) = begin_manual_fanout now total b in
      (n ≡ (if ltb (worker_limit b) total then worker_limit b else total))
      × (c.pending_manual_ping ≡ b.pending_manual_ping + total)
      × (c.saturation_count ≡ b.saturation_count + (if ltb (worker_limit b) total then 1 else 0))
      × (c.manual_fanout_locked ≡ true)
unfolding begin_manual_fanout queue_manual record_saturation_once worker_limit
begin_manual_fanout_lem b f now total r e = let s = Reachable-IsSound r in ground (arith, s.flagged)
