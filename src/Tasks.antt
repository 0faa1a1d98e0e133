-- ===== src/Tasks.antt =====
-- include/servd/Task.hpp: the promise of a lazily started coroutine, and when_all, which awaits
-- several at once. A coroutine handle is a number.
pub mod Await
pub mod Schedule
mod Progress
mod Join
pub mod Results
mod Owner
mod Void
pub mod Tuple
mod Tests
use servd.Base.{
  ℕ, suc, ◌+◌, ◌-◌, ◌%◌, ◌^◌, Bool, true, false, not, ◌&&◌, Option, none, some, List, [], ◌∷◌,
  length, replicate, set, ◌==◌, if◌then◌else◌,
}
use servd.Result.{Error, Result, ok, err}

-- Task<T>::promise_type; a `T value_{}` starts as its default.
pub record Promise {ℓ} (A : Type ℓ) : Type ℓ where
  pub value : A
  pub exception : Option Error
  pub continuation : Option ℕ

module _ {ℓ} {A : Type ℓ} where
  unfoldable pub new_promise : A → Promise A
  new_promise default = record { value = default; exception = none; continuation = none }

  unfoldable pub return_value : A → Promise A → Promise A
  return_value v p = record p { value = v }

  unfoldable pub unhandled_exception : Error → Promise A → Promise A
  unhandled_exception e p = record p { exception = some e }

  -- How a coroutine's body leaves its promise.
  unfoldable pub body_ends : Result A → Promise A → Promise A
  unfolding return_value unhandled_exception
  body_ends (ok v) p = return_value v p
  body_ends (err e) p = unhandled_exception e p

  -- Task<T>::FinalAwaiter: the coroutine that runs next, if any.
  unfoldable pub final_suspend : Promise A → Option ℕ
  final_suspend p = p.continuation

  -- The awaiting coroutine is noted, and the awaited one, `handle`, runs.
  unfoldable pub await_suspend : ℕ → ℕ → Promise A → Promise A × ℕ
  await_suspend handle continuation p = (record p { continuation = some continuation }, handle)

  unfoldable pub await_resume : Promise A → Result A
  await_resume p = elim p.exception [ some e ↦ err e | none ↦ ok p.value ]

-- detail::WhenAllStateBase and its slots. `remaining` is the bit pattern of an `int`, `caller` says
-- whether a coroutine awaits, and `resumed` counts how often a wrapper's end resumed it.
pub record WhenAllState {ℓ} (A : Type ℓ) : Type ℓ where
  pub remaining : ℕ
  pub error : Option Error
  pub caller : Bool
  pub started : Bool
  pub slots : List (Option A)
  pub resumed : ℕ

module _ {ℓ} {A : Type ℓ} where
  -- make_wrapper, once its task has a result, up to final_suspend.
  unfoldable pub wrapper_ends : ℕ → Result A → WhenAllState A → WhenAllState A
  wrapper_ends i (ok v) s = record s { slots = set s.slots i (some v) }
  wrapper_ends i (err e) s = record s { error = some e }

  -- detail::WhenAllTask::FinalAwaiter
  unfoldable pub final_await : WhenAllState A → WhenAllState A
  final_await s =
      let left = (s.remaining + 2 ^ 32 - 1) % 2 ^ 32 in
      record s {
        remaining = left;
        resumed = if (left == 0) && (s.started && s.caller) then suc s.resumed else s.resumed;
      }

  unfoldable pub complete : ℕ → Result A → WhenAllState A → WhenAllState A
  unfolding wrapper_ends final_await
  complete i r s = final_await (wrapper_ends i r s)

  -- The state of when_all before its coroutine awaits `n` tasks.
  unfoldable pub when_all_state : ℕ → WhenAllState A
  when_all_state n = record {
    remaining = n % 2 ^ 32;
    error = none;
    caller = false;
    started = false;
    slots = replicate n none;
    resumed = 0;
  }

  -- The loop over the wrappers from the i-th on. A wrapper that is resumed for the first time runs
  -- up to its end (`some`), or suspends with its task.
  unfoldable pub resume_wrappers : ℕ → List (Option (Result A)) → WhenAllState A → WhenAllState A
  resume_wrappers i [] s = s
  resume_wrappers i (none ∷ firsts) s = resume_wrappers (suc i) firsts s
  resume_wrappers i (some r ∷ firsts) s = resume_wrappers (suc i) firsts (complete i r s)

  -- WhenAllAwaiter::await_suspend: whether the caller stays suspended.
  unfoldable pub await_wrappers : List (Option (Result A)) → WhenAllState A → WhenAllState A × Bool
  await_wrappers firsts s =
      let run = resume_wrappers 0 firsts (record s { caller = true }) in
      (record run { started = true }, not (run.remaining == 0))

  add_value : Option A → Option (List A) → Option (List A)
  add_value (some v) (some vs) = some (v ∷ vs)
  add_value (some v) none = none
  add_value none vs = none

  -- The values of the slots; `none` is a read of an empty one.
  unfoldable pub slot_values : List (Option A) → Option (List A)
  unfolding add_value
  slot_values [] = some []
  slot_values (x ∷ xs) = add_value x (slot_values xs)

  results_of : Option Error → List (Option A) → Option (Result (List A))
  results_of (some e) slots = some (err e)
  results_of none slots = elim (slot_values slots) [ some vs ↦ some (ok vs) | none ↦ none ]

  -- WhenAllAwaiter::await_resume
  unfoldable pub when_all_result : WhenAllState A → Option (Result (List A))
  unfolding results_of
  when_all_result s = results_of s.error s.slots
