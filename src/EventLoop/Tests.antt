-- ===== src/EventLoop/Tests.antt =====
-- Instances of the theorems about src/UringEngine/EngineCore.cpp.
use servd.Base.{◌+◌, ◌≡◌, true, false, pos, List, [], ◌∷◌}
use servd.EventLoop.{EventLoop, posts, submits, rounds, Event, Round, posted_operation, run_events}
use servd.EventLoop.Conservation.{
  resumptions, owned_operations, handed, posted, run_events_conserve,
}

-- The ring is full for one post of coroutine 7.
abbrev busy : EventLoop
busy = record {
  pending_posts = posted_operation 7 ∷ [];
  in_flight = posted_operation 8 ∷ [];
  running = true;
  signal_received = false;
  resumed = [];
  freed = 0;
}

abbrev prompt : Round
prompt = record { sqes = 1; res = pos 0; which = 0 }

abbrev history : List Event
history = posts 7 false ∷ rounds prompt ∷ submits 9 ∷ []

run_events_conserve_example :
    (resumptions 7 (run_events history busy) ≡ resumptions 7 busy + handed 7 history)
    × (owned_operations (run_events history busy) ≡ owned_operations busy + posted history)
run_events_conserve_example = run_events_conserve 7 history busy
