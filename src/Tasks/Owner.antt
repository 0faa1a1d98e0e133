-- ===== src/Tasks/Owner.antt =====
-- Who owns the frame of a coroutine: the constructor, the move constructor and the destructor of
-- Task, include/servd/Task.hpp. Copies and assignments are deleted there.
use servd.Base.{
  ℕ, zero, suc, ◌+◌, ◌≡◌, refl, ◌⊎◌, inl, inr, Option, none, some, List, [], ◌∷◌, ◌++◌, arith,
  get_elem?, set, total, total-append, total-set, ◌==◌, if◌then◌else◌,
}

-- `objects` has the `handle_` of every Task object, the oldest first; one whose life has ended stays
-- without a handle. `destroyed` has the frames that were destroyed, in order.
pub record TaskObjects : Type 0 where
  pub objects : List (Option ℕ)
  pub destroyed : List ℕ

-- get_return_object on a new frame
construct : ℕ → TaskObjects → TaskObjects
construct h s = record s { objects = s.objects ++ (some h ∷ []) }

-- Task(Task&&) from the object at `i`: std::exchange(other.handle_, nullptr)
move_handle : ℕ → Option (Option ℕ) → TaskObjects → TaskObjects
move_handle i none s = s
move_handle i (some handle) s = record s { objects = set s.objects i none ++ (handle ∷ []) }

move_construct : ℕ → TaskObjects → TaskObjects
unfolding move_handle
move_construct i s = move_handle i (get_elem? s.objects i) s

-- ~Task of the object at `i`: if (handle_) handle_.destroy()
destroy_handle : ℕ → Option (Option ℕ) → TaskObjects → TaskObjects
destroy_handle i none s = s
destroy_handle i (some none) s = s
destroy_handle i (some (some h)) s = record {
  objects = set s.objects i none;
  destroyed = s.destroyed ++ (h ∷ []);
}

destruct : ℕ → TaskObjects → TaskObjects
unfolding destroy_handle
destruct i s = destroy_handle i (get_elem? s.objects i) s

pub data ObjectStep : Type 0 where
  constructs : ℕ → ObjectStep
  moves : ℕ → ObjectStep
  destructs : ℕ → ObjectStep

step : ObjectStep → TaskObjects → TaskObjects
step (constructs h) s = construct h s
step (moves i) s = move_construct i s
step (destructs i) s = destruct i s

pub run_steps : List ObjectStep → TaskObjects → TaskObjects
unfolding step
run_steps [] s = s
run_steps (e ∷ es) s = run_steps es (step e s)

abbrev pub no_objects : TaskObjects
no_objects = record { objects = []; destroyed = [] }

abbrev pub is_frame : ℕ → ℕ → ℕ
is_frame h k = if k == h then 1 else 0

abbrev pub holds : ℕ → Option ℕ → ℕ
holds h none = 0
holds h (some k) = is_frame h k

-- How many objects hold the frame, how often it was destroyed, and how often it was made.
abbrev pub holders : ℕ → TaskObjects → ℕ
holders h s = total (holds h) s.objects

abbrev pub deaths : ℕ → TaskObjects → ℕ
deaths h s = total (is_frame h) s.destroyed

abbrev pub births : ℕ → List ObjectStep → ℕ
births h [] = 0
births h (constructs k ∷ es) = is_frame h k + births h es
births h (moves i ∷ es) = births h es
births h (destructs i ∷ es) = births h es

births-cons :
    (h : ℕ) (e : ObjectStep) (es : List ObjectStep)
    → births h (e ∷ es) ≡ births h (e ∷ []) + births h es
births-cons h (constructs k) es = omega arith
births-cons h (moves i) es = omega arith
births-cons h (destructs i) es = omega arith

module _ (h : ℕ) where
  move_handle_keeps :
      (i : ℕ) (o : Option (Option ℕ)) (s : TaskObjects)
      → get_elem? s.objects i ≡ o
      → holders h (move_handle i o s) + deaths h (move_handle i o s) ≡ holders h s + deaths h s
  unfolding move_handle total
  move_handle_keeps i none s e = refl
  move_handle_keeps i (some handle) s e = omega (
    arith,
    total-set (holds h) s.objects i handle none e,
    total-append (holds h) (set s.objects i none) (handle ∷ []),
  )

  destroy_handle_keeps :
      (i : ℕ) (o : Option (Option ℕ)) (s : TaskObjects)
      → get_elem? s.objects i ≡ o
      → holders h (destroy_handle i o s) + deaths h (destroy_handle i o s)
        ≡ holders h s + deaths h s
  unfolding destroy_handle total
  destroy_handle_keeps i none s e = refl
  destroy_handle_keeps i (some none) s e = refl
  destroy_handle_keeps i (some (some k)) s e = omega (
    arith,
    total-set (holds h) s.objects i (some k) none e,
    total-append (is_frame h) s.destroyed (k ∷ []),
  )

  step_counts :
      (e : ObjectStep) (s : TaskObjects)
      → holders h (step e s) + deaths h (step e s) ≡ births h (e ∷ []) + (holders h s + deaths h s)
  unfolding step construct move_construct destruct total
  step_counts (constructs k) s = omega (arith, total-append (holds h) s.objects (some k ∷ []))
  step_counts (moves i) s = omega (arith, move_handle_keeps i (get_elem? s.objects i) s refl)
  step_counts (destructs i) s = omega (arith, destroy_handle_keeps i (get_elem? s.objects i) s refl)

  run_steps_counts :
      (es : List ObjectStep) (s : TaskObjects)
      → holders h (run_steps es s) + deaths h (run_steps es s)
        ≡ births h es + (holders h s + deaths h s)
  unfolding run_steps
  run_steps_counts [] s = omega arith
  run_steps_counts (e ∷ es) s =
      omega (arith, run_steps_counts es (step e s), step_counts e s, births-cons h e es)

one_of_two : (a b : ℕ) → a + b ≡ 1 → ((a ≡ 1) × (b ≡ 0)) ⊎ ((a ≡ 0) × (b ≡ 1))
one_of_two zero b e = inr (refl, omega arith)
one_of_two (suc a) b e = inl (omega arith, omega arith)

-- However Task objects are made, moved and destroyed, in any order: a frame that was made once is
-- either held by exactly one object and not destroyed, or held by none and destroyed exactly once.
pub run_steps_own :
    (h : ℕ) (es : List ObjectStep)
    → births h es ≡ 1
    → ((holders h (run_steps es no_objects) ≡ 1) × (deaths h (run_steps es no_objects) ≡ 0))
      ⊎ ((holders h (run_steps es no_objects) ≡ 0) × (deaths h (run_steps es no_objects) ≡ 1))
unfolding total
run_steps_own h es once =
    one_of_two (holders h (run_steps es no_objects)) (deaths h (run_steps es no_objects))
      (omega (arith, run_steps_counts h es no_objects))
