-- ===== src/Tasks/Tuple.antt =====
-- when_all over a tuple of tasks, each with a type of its own: the variadic overload of
-- include/servd/Task.hpp.
mod Erasure
mod Agreement
pub mod Results
use servd.Base.{
  ℕ, zero, suc, ◌+◌, ◌-◌, ◌%◌, ◌^◌, Bool, true, false, not, ◌&&◌, Option, none, some, List, [], ◌∷◌,
  length, ◌==◌, if◌then◌else◌,
}
use servd.Result.{Error, Result, ok, err}

-- std::tuple<Ts...>, a result for each task, and the tuple of slots.
abbrev pub Tuple : List (Type 0) → Type 0
Tuple [] = Unit {0}
Tuple (T ∷ Ts) = T × Tuple Ts

abbrev pub Outcomes : List (Type 0) → Type 0
Outcomes [] = Unit {0}
Outcomes (T ∷ Ts) = Result T × Outcomes Ts

abbrev pub Slots : List (Type 0) → Type 0
Slots [] = Unit {0}
Slots (T ∷ Ts) = Option T × Slots Ts

-- detail::WhenAllState<Ts...>, as `WhenAllState` of Tasks, but for the slots.
pub record TupleState (Ts : List (Type 0)) : Type 0 where
  pub remaining : ℕ
  pub error : Option Error
  pub caller : Bool
  pub started : Bool
  pub slots : Slots Ts
  pub resumed : ℕ

pub empty_slots : (Ts : List (Type 0)) → Slots Ts
empty_slots [] = tt
empty_slots (T ∷ Ts) = (none, empty_slots Ts)

-- The state before the coroutine awaits the tasks.
pub tuple_state : (Ts : List (Type 0)) → TupleState Ts
tuple_state Ts = record {
  remaining = length Ts % 2 ^ 32;
  error = none;
  caller = false;
  started = false;
  slots = empty_slots Ts;
  resumed = 0;
}

value_or : {T : Type 0} → Result T → Option T → Option T
value_or (ok v) slot = some v
value_or (err e) slot = slot

-- std::get<i>(slots).value.emplace(result), where the i-th task has returned.
pub emplace : (Ts : List (Type 0)) → ℕ → Outcomes Ts → Slots Ts → Slots Ts
unfolding value_or
emplace [] i rs xs = xs
emplace (T ∷ Ts) zero rs xs = (value_or rs.0 xs.0, xs.1)
emplace (T ∷ Ts) (suc i) rs xs = (xs.0, emplace Ts i rs.1 xs.1)

thrown : {T : Type 0} → Result T → Option Error
thrown (ok v) = none
thrown (err e) = some e

-- What the i-th task threw, if there is an i-th task.
pub ended_with : (Ts : List (Type 0)) → ℕ → Outcomes Ts → Option (Option Error)
unfolding thrown
ended_with [] i rs = none
ended_with (T ∷ Ts) zero rs = some (thrown rs.0)
ended_with (T ∷ Ts) (suc i) rs = ended_with Ts i rs.1

module _ (Ts : List (Type 0)) where
  -- make_wrapper, once its task has a result, up to final_suspend.
  pub tuple_wrapper_ends : ℕ → Outcomes Ts → Option Error → TupleState Ts → TupleState Ts
  tuple_wrapper_ends i rs none s = record s { slots = emplace Ts i rs s.slots }
  tuple_wrapper_ends i rs (some e) s = record s { error = some e }

  -- detail::WhenAllTask::FinalAwaiter
  pub tuple_final_await : TupleState Ts → TupleState Ts
  tuple_final_await s =
      let left = (s.remaining + 2 ^ 32 - 1) % 2 ^ 32 in
      record s {
        remaining = left;
        resumed = if (left == 0) && (s.started && s.caller) then suc s.resumed else s.resumed;
      }

  pub tuple_complete_at : ℕ → Outcomes Ts → Option (Option Error) → TupleState Ts → TupleState Ts
  unfolding tuple_wrapper_ends tuple_final_await
  tuple_complete_at i rs none s = s
  tuple_complete_at i rs (some error) s = tuple_final_await (tuple_wrapper_ends i rs error s)

  pub tuple_complete : ℕ → Outcomes Ts → TupleState Ts → TupleState Ts
  unfolding tuple_complete_at ended_with
  tuple_complete i rs s = tuple_complete_at i rs (ended_with Ts i rs) s

  -- The tasks complete in this order, each with its result.
  pub tuple_complete_all : Outcomes Ts → List ℕ → TupleState Ts → TupleState Ts
  unfolding tuple_complete
  tuple_complete_all rs [] s = s
  tuple_complete_all rs (i ∷ is) s = tuple_complete_all rs is (tuple_complete i rs s)

  -- The loop over the wrappers from the i-th on; those that are marked run up to their end.
  pub resume_tuple : ℕ → List Bool → Outcomes Ts → TupleState Ts → TupleState Ts
  unfolding tuple_complete
  resume_tuple i [] rs s = s
  resume_tuple i (true ∷ firsts) rs s = resume_tuple (suc i) firsts rs (tuple_complete i rs s)
  resume_tuple i (false ∷ firsts) rs s = resume_tuple (suc i) firsts rs s

  -- WhenAllAwaiter::await_suspend: whether the caller stays suspended.
  pub await_tuple : List Bool → Outcomes Ts → TupleState Ts → TupleState Ts × Bool
  unfolding resume_tuple
  await_tuple firsts rs s =
      let run = resume_tuple 0 firsts rs (record s { caller = true }) in
      (record run { started = true }, not (run.remaining == 0))

pair_values : {T U : Type 0} → Option T → Option U → Option (T × U)
pair_values (some v) (some vs) = some (v, vs)
pair_values (some v) none = none
pair_values none vs = none

-- WhenAllAwaiter::extract; `none` is a read of an empty slot.
pub extract : (Ts : List (Type 0)) → Slots Ts → Option (Tuple Ts)
unfolding pair_values
extract [] xs = some tt
extract (T ∷ Ts) xs = pair_values xs.0 (extract Ts xs.1)

returned : {A : Type 0} → Option Error → Option A → Option (Result A)
returned (some e) vs = some (err e)
returned none (some vs) = some (ok vs)
returned none none = none

-- WhenAllAwaiter::await_resume
pub tuple_result : (Ts : List (Type 0)) → TupleState Ts → Option (Result (Tuple Ts))
unfolding returned extract
tuple_result Ts s = returned s.error (extract Ts s.slots)
