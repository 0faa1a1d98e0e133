-- ===== src/Tasks/Tuple/Erasure.antt =====
-- The variadic when_all runs as the one over a vector does, if the values are left out.
use servd.Base.{
  ℕ, zero, suc, ◌≡◌, refl, ap, ◌∙◌, Option, none, some, List, [], ◌∷◌, get_elem?, set, length,
  replicate,
}
use servd.Result.{Error, Result, ok, err}
use servd.Tasks.{WhenAllState, when_all_state, complete, wrapper_ends, final_await}
use servd.Tasks.Schedule.{complete_at, complete_all}
use servd.Tasks.Tuple.{
  Outcomes, Slots, TupleState, empty_slots, tuple_state, value_or, emplace, thrown, ended_with,
  tuple_wrapper_ends, tuple_final_await, tuple_complete_at, tuple_complete, tuple_complete_all,
}

abbrev pub erase_result : {T : Type 0} → Result T → Result (Unit {0})
erase_result (ok v) = ok tt
erase_result (err e) = err e

abbrev pub erase_slot : {T : Type 0} → Option T → Option (Unit {0})
erase_slot (some v) = some tt
erase_slot none = none

abbrev pub erase_outcomes : (Ts : List (Type 0)) → Outcomes Ts → List (Result (Unit {0}))
erase_outcomes [] rs = []
erase_outcomes (T ∷ Ts) rs = erase_result rs.0 ∷ erase_outcomes Ts rs.1

abbrev pub erase_slots : (Ts : List (Type 0)) → Slots Ts → List (Option (Unit {0}))
erase_slots [] xs = []
erase_slots (T ∷ Ts) xs = erase_slot xs.0 ∷ erase_slots Ts xs.1

abbrev pub erase_state : (Ts : List (Type 0)) → TupleState Ts → WhenAllState (Unit {0})
erase_state Ts s = record {
  remaining = s.remaining;
  error = s.error;
  caller = s.caller;
  started = s.started;
  slots = erase_slots Ts s.slots;
  resumed = s.resumed;
}

as_result : Option Error → Result (Unit {0})
as_result none = ok tt
as_result (some e) = err e

as_outcome : Option (Option Error) → Option (Result (Unit {0}))
unfolding as_result
as_outcome none = none
as_outcome (some error) = some (as_result error)

erase_result-thrown : {T : Type 0} (r : Result T) → erase_result r ≡ as_result (thrown r)
unfolding as_result thrown
erase_result-thrown (ok v) = refl
erase_result-thrown (err e) = refl

get_elem?-erase_outcomes :
    (Ts : List (Type 0)) (i : ℕ) (rs : Outcomes Ts)
    → get_elem? (erase_outcomes Ts rs) i ≡ as_outcome (ended_with Ts i rs)
unfolding ended_with as_outcome
get_elem?-erase_outcomes [] i rs = refl
get_elem?-erase_outcomes (T ∷ Ts) zero rs = ap some (erase_result-thrown rs.0)
get_elem?-erase_outcomes (T ∷ Ts) (suc i) rs = get_elem?-erase_outcomes Ts i rs.1

erase_slot-value_or :
    {T : Type 0} (r : Result T) (x : Option T)
    → thrown r ≡ none
    → erase_slot (value_or r x) ≡ some tt
unfolding value_or thrown
erase_slot-value_or (ok v) x e = refl
erase_slot-value_or (err x) y e = absurd (cc e)

erase_slots-emplace :
    (Ts : List (Type 0)) (i : ℕ) (rs : Outcomes Ts) (xs : Slots Ts)
    → ended_with Ts i rs ≡ some none
    → erase_slots Ts (emplace Ts i rs xs) ≡ set (erase_slots Ts xs) i (some tt)
unfolding emplace ended_with
erase_slots-emplace [] i rs xs e = refl
erase_slots-emplace (T ∷ Ts) zero rs xs e =
    ap (λ x. x ∷ erase_slots Ts xs.1) (erase_slot-value_or rs.0 xs.0 (cc e))
erase_slots-emplace (T ∷ Ts) (suc i) rs xs e =
    ap (λ l. erase_slot xs.0 ∷ l) (erase_slots-emplace Ts i rs.1 xs.1 e)

erase_slots-empty_slots :
    (Ts : List (Type 0)) → erase_slots Ts (empty_slots Ts) ≡ replicate (length Ts) none
unfolding empty_slots
erase_slots-empty_slots [] = refl
erase_slots-empty_slots (T ∷ Ts) = ap (◌∷◌ none) (erase_slots-empty_slots Ts)

module _ (Ts : List (Type 0)) (rs : Outcomes Ts) where
  erase-complete_at :
      (i : ℕ) (o : Option (Option Error)) (s : TupleState Ts)
      → ended_with Ts i rs ≡ o
      → erase_state Ts (tuple_complete_at Ts i rs o s)
        ≡ complete_at i (as_outcome o) (erase_state Ts s)
  unfolding tuple_complete_at tuple_wrapper_ends tuple_final_await as_outcome as_result complete_at
      complete wrapper_ends final_await
  erase-complete_at i none s e = refl
  erase-complete_at i (some none) s e =
      ap (λ (xs : List (Option (Unit {0}))). final_await (record (erase_state Ts s) { slots = xs }))
        (erase_slots-emplace Ts i rs s.slots e)
  erase-complete_at i (some (some x)) s e = refl

  pub erase-complete_all :
      (is : List ℕ) (s : TupleState Ts)
      → erase_state Ts (tuple_complete_all Ts rs is s)
        ≡ complete_all (erase_outcomes Ts rs) is (erase_state Ts s)
  unfolding tuple_complete_all tuple_complete complete_all
  erase-complete_all [] s = refl
  erase-complete_all (i ∷ is) s =
      erase-complete_all is (tuple_complete Ts i rs s)
      ∙ ap (complete_all (erase_outcomes Ts rs) is)
          (rw (get_elem?-erase_outcomes Ts i rs) (erase-complete_at i (ended_with Ts i rs) s refl))

pub erase-tuple_state :
    (Ts : List (Type 0)) → erase_state Ts (tuple_state Ts) ≡ when_all_state (length Ts)
unfolding tuple_state when_all_state
erase-tuple_state Ts =
    ap (λ (xs : List (Option (Unit {0}))). record (erase_state Ts (tuple_state Ts)) { slots = xs })
      (erase_slots-empty_slots Ts)
