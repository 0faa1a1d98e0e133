-- ===== src/Tasks/Results.antt =====
-- What when_all gives the coroutine that awaits it: include/servd/Task.hpp.
use servd.Base.{
  ℕ, zero, suc, ◌^◌, ◌≤◌, ◌<◌, ◌≡◌, refl, sym, ap, subst, ◌∙◌, Bool, true, false, not, ◌&&◌, Option,
  none, some, List, [], ◌∷◌, ◌++◌, length, length-replicate, arith, replicate, ◌==◌, if◌then◌else◌,
}
use servd.Result.{Error, Result, ok, err}
use servd.Tasks.{
  WhenAllState, when_all_state, await_wrappers, slot_values, add_value, results_of, when_all_result,
}
use servd.Tasks.Schedule.{
  pending, after, Valid, at_once, complete_all, last_error, first_order, values_of, joined,
}
use servd.Tasks.Progress.{filled, OkWhere, IsJoining}
use servd.Tasks.Join.{
  complete_all-IsJoining, complete_all_error, complete_all_silent, complete_all_resumed,
  after-first_order, first_order-Valid, resume_wrappers-complete_all, complete_all_started,
  pending-after,
}

-- How often the awaiting coroutine goes on: at once if it was not suspended, or by a wrapper's end.
abbrev pub resumptions {ℓ} : {A : Type ℓ} → Bool → WhenAllState A → ℕ
resumptions true s = s.resumed
resumptions false s = suc s.resumed

-- All the tasks in the order in which they complete: those of the loop, then the others.
abbrev pub order : List Bool → List ℕ → List ℕ
order done is = first_order 0 done ++ is

pending-replicate : (n : ℕ) → pending (replicate n false) ≡ n
pending-replicate zero = refl
pending-replicate (suc n) = ap suc (pending-replicate n)

last_error-append {ℓ} :
    {A : Type ℓ} (rs : List (Result A)) (e : Option Error) (is js : List ℕ)
    → last_error rs e (is ++ js) ≡ last_error rs (last_error rs e is) js
last_error-append rs e [] js = refl
last_error-append rs e (i ∷ is) js = last_error-append rs _ is js

module _ {ℓ} {A : Type ℓ} where
  filled-replicate :
      (rs : List (Result A)) → replicate (length rs) none ≡ filled (replicate (length rs) false) rs
  filled-replicate [] = refl
  filled-replicate (r ∷ rs) = ap (◌∷◌ none) (filled-replicate rs)

  OkWhere-replicate : (rs : List (Result A)) → OkWhere (replicate (length rs) false) rs
  OkWhere-replicate [] = tt
  OkWhere-replicate (r ∷ rs) = (tt, OkWhere-replicate rs)

  slot_values-filled :
      (done : List Bool) (rs : List (Result A))
      → length done ≡ length rs
      → pending done ≡ 0
      → OkWhere done rs
      → slot_values (filled done rs) ≡ some (values_of rs)
  unfolding slot_values add_value
  slot_values-filled [] [] same all clean = refl
  slot_values-filled [] (r ∷ rs) same all clean = absurd (omega arith)
  slot_values-filled (b ∷ bs) [] same all clean = absurd (omega arith)
  slot_values-filled (true ∷ bs) (ok v ∷ rs) same all clean =
      rw (slot_values-filled bs rs (omega arith) all clean.1)
  slot_values-filled (true ∷ bs) (err e ∷ rs) same all clean = absurd clean.0
  slot_values-filled (false ∷ bs) (r ∷ rs) same all clean = absurd (omega arith)

  resumptions_count :
      (n m k : ℕ) (t : WhenAllState A)
      → t.resumed ≡ (if not (n == 0) && (m == 0) then suc k else k)
      → k ≡ 0
      → m ≤ n
      → resumptions (not (n == 0)) t ≡ (if m == 0 then 1 else 0)
  resumptions_count n m k t counted none_yet below = ground arith

  results_of-joined :
      (rs : List (Result A)) (error : Option Error) (slots : List (Option A))
      → (error ≡ none → slot_values slots ≡ some (values_of rs))
      → results_of error slots ≡ some (joined rs error)
  unfolding results_of
  results_of-joined rs (some e) slots h = refl
  results_of-joined rs none slots h = rw (results_of, h refl)

module _ {ℓ} {A : Type ℓ} (rs : List (Result A)) where
  -- The state when the loop over the wrappers starts.
  abbrev pub start : WhenAllState A
  start = let s : WhenAllState A = when_all_state (length rs) in record s { caller = true }

  start-IsJoining : length rs < 2 ^ 31 → IsJoining rs (replicate (length rs) false) start
  unfolding when_all_state
  start-IsJoining few = record {
    same = length-replicate (length rs) false;
    few = few;
    filling = filled-replicate rs;
    counted = omega (arith, pending-replicate (length rs));
    clean = λ h. OkWhere-replicate rs;
  }

  module _ (done : List Bool) (same : length done ≡ length rs) (few : length rs < 2 ^ 31) where
    -- The state behind the loop.
    abbrev pub begun : WhenAllState A
    begun = record (complete_all rs (first_order 0 done) start) { started = true }

    loop-Valid : Valid (replicate (length rs) false) (first_order 0 done)
    loop-Valid =
        subst (λ (n : ℕ). Valid (replicate n false) (first_order 0 done)) same
          (first_order-Valid [] done 0 refl)

    loop_after : after (replicate (length rs) false) (first_order 0 done) ≡ done
    loop_after =
        subst (λ (n : ℕ). after (replicate n false) (first_order 0 done) ≡ done) same
          (after-first_order [] done 0 refl)

    looped-IsJoining : IsJoining rs done (complete_all rs (first_order 0 done) start)
    looped-IsJoining =
        subst (λ (d : List Bool). IsJoining rs d (complete_all rs (first_order 0 done) start))
          loop_after
          (complete_all-IsJoining rs (replicate (length rs) false) (first_order 0 done) start
            loop-Valid (start-IsJoining few))

    begun-IsJoining : IsJoining rs done begun
    begun-IsJoining =
        let j = looped-IsJoining in
        record {
          same = j.same;
          few = j.few;
          filling = j.filling;
          counted = j.counted;
          clean = j.clean;
        }

    begun_resumed : begun.resumed ≡ 0
    unfolding when_all_state
    begun_resumed =
        complete_all_silent rs (replicate (length rs) false) (first_order 0 done) start loop-Valid
          (start-IsJoining few) refl

    begun_caller : begun.caller ≡ true
    begun_caller = (complete_all_started rs (first_order 0 done) start).1

    pub await_wrappers_lem :
        await_wrappers (at_once done rs) (when_all_state (length rs))
        ≡ (begun, not (pending done == 0))
    unfolding await_wrappers
    await_wrappers_lem =
        let looped = resume_wrappers-complete_all [] rs done 0 start refl same in
        rw (looped, looped-IsJoining.counted)

    pub all_errors :
        (is : List ℕ) → (complete_all rs is begun).error ≡ last_error rs none (order done is)
    unfolding when_all_state
    all_errors is =
        complete_all_error rs is begun
        ∙ ap (λ (e : Option Error). last_error rs e is)
            (complete_all_error rs (first_order 0 done) start)
        ∙ sym (last_error-append rs none (first_order 0 done) is)

    -- Fewer than 2 ^ 31 tasks that complete in any order, some of them while when_all starts
    -- them: the coroutine that awaits them goes on once all of them are complete, once and not
    -- before.
    pub when_all_resumes_once :
        (is : List ℕ)
        → Valid done is
        → let (s, suspended) = await_wrappers (at_once done rs) (when_all_state (length rs)) in
          resumptions suspended (complete_all rs is s)
          ≡ (if pending (after done is) == 0 then 1 else 0)
    when_all_resumes_once is v = rw await_wrappers_lem (
        resumptions_count (pending done) (pending (after done is)) begun.resumed
          (complete_all rs is begun)
          (complete_all_resumed rs done is begun v begun-IsJoining refl begun_caller) begun_resumed
          (pending-after rs done is v))

    -- When all the tasks, fewer than 2 ^ 31, are complete, in any order: the awaiting coroutine
    -- gets their values in the order of the tasks, or, if some failed, the error of the last one
    -- that failed.
    pub when_all_joins :
        (is : List ℕ)
        → Valid done is
        → pending (after done is) ≡ 0
        → let (s, suspended) = await_wrappers (at_once done rs) (when_all_state (length rs)) in
          when_all_result (complete_all rs is s)
          ≡ some (joined rs (last_error rs none (order done is)))
    unfolding when_all_result
    when_all_joins is v all =
        let t = complete_all rs is begun in
        let j = complete_all-IsJoining rs done is begun v begun-IsJoining in
        let values = λ (h : t.error ≡ none).
          ap slot_values j.filling ∙ slot_values-filled (after done is) rs j.same all (j.clean h) in
        rw await_wrappers_lem (
          results_of-joined rs t.error t.slots values
          ∙ ap (λ (e : Option Error). some (joined rs e)) (all_errors is))
