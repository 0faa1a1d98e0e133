-- ===== src/EventLoop/Conservation.antt =====
-- What becomes of the coroutines that wait for the ring: src/UringEngine/EngineCore.cpp.
use servd.Base.{
  ℕ, zero, suc, ◌+◌, ◌≡◌, refl, ◌∙◌, ℤ, true, false, Option, none, some, List, [], ◌∷◌, ◌++◌, arith,
  get_elem?, total, total-append, ap, pos, negsuc, ◌==◌, if◌then◌else◌,
}
use servd.EventLoop.{
  UringOperation, EventLoop, posted_operation, awaited_operation, submit, post_coroutine,
  drain_queue, drain_pending_posts, remove_at, resume, completed, run_round, Event, posts, submits,
  rounds, run_event, run_events,
}

abbrev pub of_handle : ℕ → ℕ → ℕ
of_handle h k = if k == h then 1 else 0

abbrev waits_for : ℕ → Option ℕ → ℕ
waits_for h none = 0
waits_for h (some k) = of_handle h k

abbrev pub resumes : ℕ → UringOperation → ℕ
resumes h op = waits_for h op.coroutine

abbrev pub is_owned : UringOperation → ℕ
is_owned op = if op.owned then 1 else 0

-- How often a coroutine waits in the ring or was resumed by it.
abbrev pub resumptions : ℕ → EventLoop → ℕ
resumptions h s =
    total (resumes h) s.pending_posts
    + total (resumes h) s.in_flight
    + total (of_handle h) s.resumed

-- How many operations of post_coroutine there are or were.
abbrev pub owned_operations : EventLoop → ℕ
owned_operations s = total is_owned s.pending_posts + total is_owned s.in_flight + s.freed

-- How often a coroutine is handed to the ring, and how many posts there are.
abbrev pub handed : ℕ → List Event → ℕ
handed h [] = 0
handed h (posts k has_sqe ∷ es) = of_handle h k + handed h es
handed h (submits k ∷ es) = of_handle h k + handed h es
handed h (rounds r ∷ es) = handed h es

abbrev pub posted : List Event → ℕ
posted [] = 0
posted (posts k has_sqe ∷ es) = suc (posted es)
posted (submits k ∷ es) = posted es
posted (rounds r ∷ es) = posted es

handed-cons :
    (h : ℕ) (e : Event) (es : List Event) → handed h (e ∷ es) ≡ handed h (e ∷ []) + handed h es
handed-cons h (posts k has_sqe) es = omega arith
handed-cons h (submits k) es = omega arith
handed-cons h (rounds r) es = omega arith

posted-cons : (e : Event) (es : List Event) → posted (e ∷ es) ≡ posted (e ∷ []) + posted es
posted-cons (posts k has_sqe) es = omega arith
posted-cons (submits k) es = omega arith
posted-cons (rounds r) es = omega arith

total-drain_queue :
    (f : UringOperation → ℕ) (n : ℕ) (queue flight : List UringOperation)
    → total f (drain_queue n queue flight).0 + total f (drain_queue n queue flight).1
      ≡ total f queue + total f flight
unfolding drain_queue total
total-drain_queue f zero queue flight = refl
total-drain_queue f (suc n) [] flight = refl
total-drain_queue f (suc n) (op ∷ queue) flight =
    omega
      (arith, total-drain_queue f n queue (flight ++ (op ∷ [])), total-append f flight (op ∷ []))

total-remove_at :
    (f : UringOperation → ℕ) (ops : List UringOperation) (i : ℕ) (op : UringOperation)
    → get_elem? ops i ≡ some op
    → total f (remove_at ops i) + f op ≡ total f ops
unfolding remove_at total
total-remove_at f [] i op h = cc
total-remove_at f (x ∷ ops) zero op h = let e : f x ≡ f op = ap f (cc) in omega arith
total-remove_at f (x ∷ ops) (suc i) op h = omega (arith, total-remove_at f ops i op h)

total-resume :
    (h : ℕ) (o : Option ℕ) (log : List ℕ)
    → total (of_handle h) (resume o log) ≡ total (of_handle h) log + waits_for h o
unfolding resume total
total-resume h none log = omega arith
total-resume h (some k) log = omega (arith, total-append (of_handle h) log (k ∷ []))

module _ (h : ℕ) where
  completed_conserves :
      (o : Option UringOperation) (i : ℕ) (s : EventLoop)
      → get_elem? s.in_flight i ≡ o
      → (resumptions h (completed o i s) ≡ resumptions h s)
        × (owned_operations (completed o i s) ≡ owned_operations s)
  unfolding completed
  completed_conserves none i s at = (refl, refl)
  completed_conserves (some op) i s at = (
    omega (
      arith,
      total-remove_at (resumes h) s.in_flight i op at,
      total-resume h op.coroutine s.resumed,
    ),
    ground (arith, total-remove_at is_owned s.in_flight i op at),
  )

  drain_conserves :
      (n : ℕ) (s : EventLoop)
      → (resumptions h (drain_pending_posts n s) ≡ resumptions h s)
        × (owned_operations (drain_pending_posts n s) ≡ owned_operations s)
  unfolding drain_pending_posts
  drain_conserves n s = (
    omega (arith, total-drain_queue (resumes h) n s.pending_posts s.in_flight),
    omega (arith, total-drain_queue is_owned n s.pending_posts s.in_flight),
  )

  pub round_conserves :
      (sqes : ℕ) (res : ℤ) (which : ℕ) (s : EventLoop)
      → let t = run_round (record { sqes = sqes; res = res; which = which }) s in
        (resumptions h t ≡ resumptions h s) × (owned_operations t ≡ owned_operations s)
  unfolding run_round
  round_conserves sqes (negsuc n) which s = drain_conserves sqes s
  round_conserves sqes (pos n) which s =
      let drained = drain_pending_posts sqes s in
      let (a, b) = completed_conserves (get_elem? drained.in_flight which) which drained refl in
      let (c, d) = drain_conserves sqes s in (a ∙ c, b ∙ d)

  event_conserves :
      (e : Event) (s : EventLoop)
      → (resumptions h (run_event e s) ≡ resumptions h s + handed h (e ∷ []))
        × (owned_operations (run_event e s) ≡ owned_operations s + posted (e ∷ []))
  unfolding run_event post_coroutine submit awaited_operation posted_operation total
  event_conserves (posts k true) s = (
    omega (arith, total-append (resumes h) s.in_flight (posted_operation k ∷ [])),
    omega (arith, total-append is_owned s.in_flight (posted_operation k ∷ [])),
  )
  event_conserves (posts k false) s = (
    omega (arith, total-append (resumes h) s.pending_posts (posted_operation k ∷ [])),
    omega (arith, total-append is_owned s.pending_posts (posted_operation k ∷ [])),
  )
  event_conserves (submits k) s = (
    omega (arith, total-append (resumes h) s.in_flight (awaited_operation k ∷ [])),
    omega (arith, total-append is_owned s.in_flight (awaited_operation k ∷ [])),
  )
  event_conserves (rounds r) s =
      let (a, b) = round_conserves r.sqes r.res r.which s in (omega (arith, a), omega (arith, b))

  -- Whatever happens to the ring, in any order: how often a coroutine waits in the queue or in the
  -- ring, or was resumed, grows by as often as it is handed over; and how many operations of posts
  -- wait or were deleted grows by the posts.
  pub run_events_conserve :
      (es : List Event) (s : EventLoop)
      → (resumptions h (run_events es s) ≡ resumptions h s + handed h es)
        × (owned_operations (run_events es s) ≡ owned_operations s + posted es)
  unfolding run_events
  run_events_conserve [] s = (omega arith, omega arith)
  run_events_conserve (e ∷ es) s =
      let (a, b) = run_events_conserve es (run_event e s) in
      let (c, d) = event_conserves e s in
      (a ∙ omega (arith, c, handed-cons h e es), b ∙ omega (arith, d, posted-cons e es))
