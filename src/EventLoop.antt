-- ===== src/EventLoop.antt =====
-- src/UringEngine/EngineCore.cpp: coroutines that are posted to the ring, from any thread, and the
-- loop that resumes what completes.
pub mod Conservation
mod Tests
use servd.Base.{
  ℕ, zero, suc, ◌+◌, ℤ, pos, negsuc, Bool, true, false, not, ◌&&◌, Option, none, some, List, [],
  ◌∷◌, ◌++◌, get_elem?, if◌then◌else◌,
}

-- UringOperation (src/detail/Engine.hpp)
pub record UringOperation : Type 0 where
  pub coroutine : Option ℕ
  pub cqe_res : ℤ
  pub owned : Bool

-- The engine's members that the loop uses. `in_flight` is what was submitted and is not complete,
-- `resumed` the coroutines that the loop resumed, in order, and `freed` how many operations it
-- deleted.
pub record EventLoop : Type 0 where
  pub pending_posts : List UringOperation
  pub in_flight : List UringOperation
  pub running : Bool
  pub signal_received : Bool
  pub resumed : List ℕ
  pub freed : ℕ

unfoldable pub posted_operation : ℕ → UringOperation
posted_operation h = record { coroutine = some h; cqe_res = pos 0; owned = true }

-- An operation of a coroutine that awaits it, such as async_read: it lives in the coroutine's frame.
unfoldable pub awaited_operation : ℕ → UringOperation
awaited_operation h = record { coroutine = some h; cqe_res = pos 0; owned = false }

unfoldable pub submit : UringOperation → EventLoop → EventLoop
submit op s = record s { in_flight = s.in_flight ++ (op ∷ []) }

-- `has_sqe`: whether io_uring_get_sqe gives an entry.
unfoldable pub post_coroutine : ℕ → Bool → EventLoop → EventLoop
unfolding posted_operation submit
post_coroutine h has_sqe s =
    if has_sqe
    then submit (posted_operation h) s
    else record s { pending_posts = s.pending_posts ++ (posted_operation h ∷ []) }

-- The queue and what is submitted, for as many entries as io_uring_get_sqe gives.
unfoldable pub drain_queue :
    ℕ → List UringOperation → List UringOperation → List UringOperation × List UringOperation
drain_queue zero queue flight = (queue, flight)
drain_queue (suc sqes) [] flight = ([], flight)
drain_queue (suc sqes) (op ∷ queue) flight = drain_queue sqes queue (flight ++ (op ∷ []))

unfoldable pub drain_pending_posts : ℕ → EventLoop → EventLoop
unfolding drain_queue
drain_pending_posts sqes s =
    let (queue, flight) = drain_queue sqes s.pending_posts s.in_flight in
    record s { pending_posts = queue; in_flight = flight }

unfoldable pub remove_at : List UringOperation → ℕ → List UringOperation
remove_at [] i = []
remove_at (op ∷ ops) zero = ops
remove_at (op ∷ ops) (suc i) = op ∷ remove_at ops i

resume : Option ℕ → List ℕ → List ℕ
resume none log = log
resume (some h) log = log ++ (h ∷ [])

-- An operation whose completion the loop sees.
unfoldable pub handle_completion : UringOperation → ℕ → EventLoop → EventLoop
unfolding resume
handle_completion op i s = record s {
  in_flight = remove_at s.in_flight i;
  resumed = resume op.coroutine s.resumed;
  freed = if op.owned then suc s.freed else s.freed;
}

completed : Option UringOperation → ℕ → EventLoop → EventLoop
unfolding handle_completion
completed none i s = s
completed (some op) i s = handle_completion op i s

-- What the surroundings do in one round: the entries that are free, the result of
-- io_uring_wait_cqe, and the place of the operation that is complete.
pub record Round : Type 0 where
  pub sqes : ℕ
  pub res : ℤ
  pub which : ℕ

-- The body of the loop.
unfoldable pub run_round : Round → EventLoop → EventLoop
unfolding completed drain_pending_posts
run_round r s =
    let drained = drain_pending_posts r.sqes s in
    elim r.res [
      | negsuc n ↦ drained
      | pos n ↦ completed (get_elem? drained.in_flight r.which) r.which drained
    ]

-- What can happen to the ring, in the order in which it happens. A resumed coroutine submits
-- operations and posts by events of its own.
pub data Event : Type 0 where
  posts : ℕ → Bool → Event
  submits : ℕ → Event
  rounds : Round → Event

unfoldable pub run_event : Event → EventLoop → EventLoop
unfolding run_round post_coroutine submit awaited_operation
run_event (posts h has_sqe) s = post_coroutine h has_sqe s
run_event (submits h) s = submit (awaited_operation h) s
run_event (rounds r) s = run_round r s

unfoldable pub run_events : List Event → EventLoop → EventLoop
unfolding run_event
run_events [] s = s
run_events (e ∷ es) s = run_events es (run_event e s)
