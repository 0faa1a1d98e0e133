-- ===== src/Tasks/Tests.antt =====
-- Instances of the theorems about when_all and the ownership of frames, of include/servd/Task.hpp.
use servd.Base.{ℕ, ◌≡◌, ◌⊎◌, refl, Bool, true, false, some, none, List, [], ◌∷◌, arith}
use servd.Result.{Result, ok, err, connection_closed}
use servd.Tasks.{when_all_state, await_wrappers, when_all_result}
use servd.Tasks.Schedule.{at_once, complete_all}
use servd.Tasks.Tuple.{Tuple, Outcomes, tuple_state, await_tuple, tuple_complete_all, tuple_result}
use servd.Tasks.Tuple.Results.{Gathered, tuple_resumptions, tuple_joins}
use servd.Tasks.Owner.{
  ObjectStep, constructs, moves, destructs, run_steps, no_objects, holders, deaths, run_steps_own,
}
use servd.Tasks.Results.{resumptions, when_all_resumes_once, when_all_joins}

-- Of three tasks the second completes at once; then the third fails, and the first completes.
abbrev results : List (Result ℕ)
results = ok 7 ∷ ok 8 ∷ err connection_closed ∷ []

abbrev second_at_once : List Bool
second_at_once = false ∷ true ∷ false ∷ []

when_all_resumes_once_example :
    let (s, suspended) = await_wrappers (at_once second_at_once results) (when_all_state 3) in
    resumptions suspended (complete_all results (2 ∷ []) s) ≡ 0
when_all_resumes_once_example =
    when_all_resumes_once results second_at_once refl (omega arith) (2 ∷ []) (refl, tt)

when_all_joins_example :
    let (s, suspended) = await_wrappers (at_once second_at_once results) (when_all_state 3) in
    when_all_result (complete_all results (2 ∷ 0 ∷ []) s) ≡ some (err connection_closed)
when_all_joins_example =
    when_all_joins results second_at_once refl (omega arith) (2 ∷ 0 ∷ []) (refl, (refl, tt)) refl

-- Two tasks; the first is moved, and both objects of it are destroyed.
abbrev object_steps : List ObjectStep
object_steps = constructs 5 ∷ constructs 6 ∷ moves 0 ∷ destructs 0 ∷ destructs 2 ∷ []

run_steps_own_example :
    ((holders 5 (run_steps object_steps no_objects) ≡ 1)
      × (deaths 5 (run_steps object_steps no_objects) ≡ 0))
    ⊎ ((holders 5 (run_steps object_steps no_objects) ≡ 0)
        × (deaths 5 (run_steps object_steps no_objects) ≡ 1))
run_steps_own_example = run_steps_own 5 object_steps refl

-- A number and a flag; the flag's task completes at once.
abbrev number_and_flag : List (Type 0)
number_and_flag = ℕ ∷ Bool ∷ []

abbrev two_results : Outcomes number_and_flag
two_results = (ok 7, (ok true, tt))

tuple_joins_example :
    let (s, suspended) =
      await_tuple number_and_flag (false ∷ true ∷ []) two_results (tuple_state number_and_flag) in
    (tuple_resumptions suspended (tuple_complete_all number_and_flag two_results (0 ∷ []) s) ≡ 1)
    × (r : Result (Tuple number_and_flag)) × (tuple_result number_and_flag
          (tuple_complete_all number_and_flag two_results (0 ∷ []) s)
        ≡ some r)
    × Gathered number_and_flag two_results none r
tuple_joins_example =
    tuple_joins number_and_flag two_results (false ∷ true ∷ []) (0 ∷ []) refl (omega arith)
      (refl, tt) refl
