-- ===== src/Tasks/Tuple/Results.antt =====
-- What the variadic when_all gives the coroutine that awaits it: include/servd/Task.hpp.
use servd.Base.{
  ℕ, suc, ◌^◌, ◌<◌, ◌≡◌, refl, sym, ap, ap₂, subst, ◌∙◌, Bool, true, false, not, Option, none, some,
  inl, inr, List, [], ◌∷◌, length, Option-cases, ◌==◌, if◌then◌else◌,
}
use servd.Result.{Error, Result, ok, err}
use servd.Tasks.{
  WhenAllState, when_all_state, await_wrappers, slot_values, results_of, when_all_result,
}
use servd.Tasks.Schedule.{
  pending, after, Valid, at_once, complete_all, last_error, first_order, joined,
}
use servd.Tasks.Results.{
  resumptions, order, begun, await_wrappers_lem, all_errors, when_all_resumes_once, when_all_joins,
}
use servd.Tasks.Tuple.{
  Tuple, Outcomes, TupleState, tuple_state, ended_with, tuple_wrapper_ends, tuple_final_await,
  tuple_complete_at, tuple_complete, tuple_complete_all, resume_tuple, await_tuple, returned,
  tuple_result,
}
use servd.Tasks.Tuple.Erasure.{
  erase_outcomes, erase_slots, erase_state, erase-complete_all, erase-tuple_state,
}
use servd.Tasks.Tuple.Agreement.{succeed, Agrees, empty_slots-Agrees, emplace-Agrees, extract_joins}

-- A tuple of values is what all the tasks returned; an error is the last one.
abbrev pub Gathered : (Ts : List (Type 0)) → Outcomes Ts → Option Error → Result (Tuple Ts) → Type 0
Gathered Ts rs last (ok vs) = (last ≡ none) × (rs ≡ succeed Ts vs)
Gathered Ts rs last (err e) = last ≡ some e

-- How often the awaiting coroutine goes on.
abbrev pub tuple_resumptions : {Ts : List (Type 0)} → Bool → TupleState Ts → ℕ
tuple_resumptions true s = s.resumed
tuple_resumptions false s = suc s.resumed

resumptions-erase_state :
    {Ts : List (Type 0)} (suspended : Bool) (s : TupleState Ts)
    → tuple_resumptions suspended s ≡ resumptions suspended (erase_state Ts s)
resumptions-erase_state true s = refl
resumptions-erase_state false s = refl

no_result :
    {A : Type 0} (slots : List (Option A)) → slot_values slots ≡ none → results_of none slots ≡ none
unfolding results_of
no_result slots e = rw (results_of, e)

length-erase_outcomes :
    (Ts : List (Type 0)) (rs : Outcomes Ts) → length Ts ≡ length (erase_outcomes Ts rs)
length-erase_outcomes [] rs = refl
length-erase_outcomes (T ∷ Ts) rs = ap suc (length-erase_outcomes Ts rs.1)

module _ (Ts : List (Type 0)) (rs : Outcomes Ts) where
  complete_at-Agrees :
      (i : ℕ) (o : Option (Option Error)) (s : TupleState Ts)
      → Agrees Ts rs s.slots
      → Agrees Ts rs (tuple_complete_at Ts i rs o s).slots
  unfolding tuple_complete_at tuple_wrapper_ends tuple_final_await
  complete_at-Agrees i none s h = h
  complete_at-Agrees i (some none) s h = emplace-Agrees Ts i rs s.slots h
  complete_at-Agrees i (some (some e)) s h = h

  complete_all-Agrees :
      (is : List ℕ) (s : TupleState Ts)
      → Agrees Ts rs s.slots
      → Agrees Ts rs (tuple_complete_all Ts rs is s).slots
  unfolding tuple_complete_all tuple_complete
  complete_all-Agrees [] s h = h
  complete_all-Agrees (i ∷ is) s h =
      complete_all-Agrees is (tuple_complete Ts i rs s)
        (complete_at-Agrees i (ended_with Ts i rs) s h)

  resume_tuple-complete_all :
      (i : ℕ) (firsts : List Bool) (s : TupleState Ts)
      → resume_tuple Ts i firsts rs s ≡ tuple_complete_all Ts rs (first_order i firsts) s
  unfolding resume_tuple tuple_complete_all
  resume_tuple-complete_all i [] s = refl
  resume_tuple-complete_all i (true ∷ firsts) s =
      resume_tuple-complete_all (suc i) firsts (tuple_complete Ts i rs s)
  resume_tuple-complete_all i (false ∷ firsts) s = resume_tuple-complete_all (suc i) firsts s

  -- The results of the tasks as a vector's when_all reads them, without the values.
  abbrev outcomes : List (Result (Unit {0}))
  outcomes = erase_outcomes Ts rs

  joined_result :
      (last : Option Error) (t : TupleState Ts)
      → t.error ≡ last
      → Agrees Ts rs t.slots
      → when_all_result (erase_state Ts t) ≡ some (joined outcomes last)
      → (r : Result (Tuple Ts)) × (tuple_result Ts t ≡ some r) × Gathered Ts rs last r
  unfolding tuple_result returned when_all_result results_of
  joined_result (some x) t e h j = (err x, rw e, refl)
  joined_result none t e h j = elim (Option-cases (slot_values (erase_slots Ts t.slots))) [
    | inl empty ↦ absurd (
        cc (
          sym (no_result (erase_slots Ts t.slots) empty)
          ∙ ap (λ x. results_of x (erase_slots Ts t.slots)) (sym e)
          ∙ j))
    | inr (us, full) ↦
        let (vs, values, all) = extract_joins Ts rs t.slots us h full in
        (ok vs, rw (e, values), (refl, all))
  ]

  abbrev begin : TupleState Ts
  begin = record (tuple_state Ts) { caller = true }

  module _ (done : List Bool) (same : length done ≡ length outcomes)
      (few : length outcomes < 2 ^ 31) where
    erase-await_tuple :
        erase_state Ts (await_tuple Ts done rs (tuple_state Ts)).0 ≡ begun outcomes done same few
    unfolding await_tuple
    erase-await_tuple =
        ap (λ (s : TupleState Ts). record (erase_state Ts s) { started = true })
          (resume_tuple-complete_all 0 done begin)
        ∙ ap (λ (s : WhenAllState (Unit {0})). record s { started = true })
            (erase-complete_all Ts rs (first_order 0 done) begin
              ∙ ap
                  (λ (s : WhenAllState (Unit {0})).
                    complete_all outcomes (first_order 0 done) (record s { caller = true }))
                  (erase-tuple_state Ts ∙ ap when_all_state (length-erase_outcomes Ts rs)))

    await_tuple-Agrees : Agrees Ts rs (await_tuple Ts done rs (tuple_state Ts)).0.slots
    unfolding await_tuple tuple_state
    await_tuple-Agrees =
        subst (λ (s : TupleState Ts). Agrees Ts rs s.slots)
          (sym (resume_tuple-complete_all 0 done begin))
          (complete_all-Agrees (first_order 0 done) begin (empty_slots-Agrees Ts rs))

    erase-awaited :
        erase_state Ts (await_tuple Ts done rs (tuple_state Ts)).0
        ≡ (await_wrappers (at_once done outcomes) (when_all_state (length outcomes))).0
    erase-awaited =
        erase-await_tuple
        ∙ ap (λ (p : WhenAllState (Unit {0}) × Bool). p.0)
            (sym (await_wrappers_lem outcomes done same few))

    await_tuple_suspends :
        (await_tuple Ts done rs (tuple_state Ts)).1
        ≡ (await_wrappers (at_once done outcomes) (when_all_state (length outcomes))).1
    unfolding await_tuple await_wrappers
    await_tuple_suspends =
        ap (λ (s : WhenAllState (Unit {0})). not (s.remaining == 0)) erase-awaited

    erased_run :
        (is : List ℕ)
        → erase_state Ts (tuple_complete_all Ts rs is (await_tuple Ts done rs (tuple_state Ts)).0)
          ≡ complete_all outcomes is
              (await_wrappers (at_once done outcomes) (when_all_state (length outcomes))).0
    erased_run is =
        erase-complete_all Ts rs is (await_tuple Ts done rs (tuple_state Ts)).0
        ∙ ap (complete_all outcomes is) erase-awaited

    -- Tasks of types of their own that complete in any order, some of them while when_all starts
    -- them: the coroutine that awaits them goes on once all of them are complete, once and not
    -- before.
    tuple_resumes_once :
        (is : List ℕ)
        → Valid done is
        → let (s, suspended) = await_tuple Ts done rs (tuple_state Ts) in
          tuple_resumptions suspended (tuple_complete_all Ts rs is s)
          ≡ (if pending (after done is) == 0 then 1 else 0)
    tuple_resumes_once is v =
        resumptions-erase_state {Ts = Ts} (await_tuple Ts done rs (tuple_state Ts)).1
          (tuple_complete_all Ts rs is (await_tuple Ts done rs (tuple_state Ts)).0)
        ∙ ap₂ resumptions await_tuple_suspends (erased_run is)
        ∙ when_all_resumes_once outcomes done same few is v

    erased_joins :
        (is : List ℕ)
        → Valid done is
        → pending (after done is) ≡ 0
        → let (s, suspended) = await_tuple Ts done rs (tuple_state Ts) in
          (tuple_resumptions suspended (tuple_complete_all Ts rs is s) ≡ 1)
          × (r : Result (Tuple Ts)) × (tuple_result Ts (tuple_complete_all Ts rs is s) ≡ some r)
          × Gathered Ts rs (last_error outcomes none (order done is)) r
    erased_joins is v all =
        let t = tuple_complete_all Ts rs is (await_tuple Ts done rs (tuple_state Ts)).0 in
        let error =
          ap (λ (s : WhenAllState (Unit {0})). s.error)
            (erase-complete_all Ts rs is (await_tuple Ts done rs (tuple_state Ts)).0
              ∙ ap (complete_all outcomes is) erase-await_tuple)
          ∙ all_errors outcomes done same few is in
        let (r, returns, joins) =
          joined_result (last_error outcomes none (order done is)) t error
            (complete_all-Agrees is (await_tuple Ts done rs (tuple_state Ts)).0 await_tuple-Agrees)
            (ap when_all_result (erased_run is) ∙ when_all_joins outcomes done same few is v all) in
        (tuple_resumes_once is v ∙ ap (λ n. if n == 0 then 1 else 0) all, r, returns, joins)

-- When all the tasks of the variadic when_all, fewer than 2 ^ 31, are complete, in any order,
-- some of them while it starts them: the awaiting coroutine goes on once, and gets a tuple, which
-- holds what each task returned, if none failed, or else the error of the last one that failed.
pub tuple_joins :
    (Ts : List (Type 0)) (rs : Outcomes Ts) (done : List Bool) (is : List ℕ)
    → length done ≡ length Ts
    → length Ts < 2 ^ 31
    → Valid done is
    → pending (after done is) ≡ 0
    → let (s, suspended) = await_tuple Ts done rs (tuple_state Ts) in
      (tuple_resumptions suspended (tuple_complete_all Ts rs is s) ≡ 1)
      × (r : Result (Tuple Ts)) × (tuple_result Ts (tuple_complete_all Ts rs is s) ≡ some r)
      × Gathered Ts rs (last_error (erase_outcomes Ts rs) none (order done is)) r
tuple_joins Ts rs done is same few =
    erased_joins Ts rs done (same ∙ length-erase_outcomes Ts rs)
      (subst (λ n. n < 2 ^ 31) (length-erase_outcomes Ts rs) few) is
