-- ===== src/Tasks/Tuple/Agreement.antt =====
-- The slots of the variadic when_all hold what its tasks returned: include/servd/Task.hpp.
use servd.Base.{
  ℕ, zero, suc, ◌≡◌, refl, sym, ap, ◌∙◌, Option, none, some, inl, inr, List, [], ◌∷◌, Option-cases,
}
use servd.Result.{Result, ok, err}
use servd.Tasks.{add_value, slot_values}
use servd.Tasks.Tuple.{Tuple, Outcomes, Slots, empty_slots, value_or, emplace, pair_values, extract}
use servd.Tasks.Tuple.Erasure.{erase_slots}

-- The tasks all returned these values.
abbrev pub succeed : (Ts : List (Type 0)) → Tuple Ts → Outcomes Ts
succeed [] vs = tt
succeed (T ∷ Ts) vs = (ok vs.0, succeed Ts vs.1)

-- A slot that is filled holds what its task returned.
abbrev pub SlotAgrees : {T : Type 0} → Result T → Option T → Type 0
SlotAgrees r none = Unit {0}
SlotAgrees r (some v) = r ≡ ok v

abbrev pub Agrees : (Ts : List (Type 0)) → Outcomes Ts → Slots Ts → Type 0
Agrees [] rs xs = Unit {0}
Agrees (T ∷ Ts) rs xs = SlotAgrees rs.0 xs.0 × Agrees Ts rs.1 xs.1

pub empty_slots-Agrees : (Ts : List (Type 0)) (rs : Outcomes Ts) → Agrees Ts rs (empty_slots Ts)
unfolding empty_slots
empty_slots-Agrees [] rs = tt
empty_slots-Agrees (T ∷ Ts) rs = (tt, empty_slots-Agrees Ts rs.1)

value_or-SlotAgrees :
    {T : Type 0} (r : Result T) (x : Option T) → SlotAgrees r x → SlotAgrees r (value_or r x)
unfolding value_or
value_or-SlotAgrees (ok v) x h = refl
value_or-SlotAgrees (err e) x h = h

pub emplace-Agrees :
    (Ts : List (Type 0)) (i : ℕ) (rs : Outcomes Ts) (xs : Slots Ts)
    → Agrees Ts rs xs
    → Agrees Ts rs (emplace Ts i rs xs)
unfolding emplace
emplace-Agrees [] i rs xs h = h
emplace-Agrees (T ∷ Ts) zero rs xs h = (value_or-SlotAgrees rs.0 xs.0 h.0, h.1)
emplace-Agrees (T ∷ Ts) (suc i) rs xs h = (h.0, emplace-Agrees Ts i rs.1 xs.1 h.1)

pub extract_joins :
    (Ts : List (Type 0)) (rs : Outcomes Ts) (xs : Slots Ts) (us : List (Unit {0}))
    → Agrees Ts rs xs
    → slot_values (erase_slots Ts xs) ≡ some us
    → (vs : Tuple Ts) × (extract Ts xs ≡ some vs) × (rs ≡ succeed Ts vs)
unfolding extract slot_values add_value pair_values
extract_joins [] rs xs us h e = (tt, refl, refl)
extract_joins (T ∷ Ts) (r, rs) (none, xs) us h e = absurd (cc e)
extract_joins (T ∷ Ts) (r, rs) (some v, xs) us (here, h) e =
    elim (Option-cases (slot_values (erase_slots Ts xs))) [
      | inl empty ↦ absurd (cc (sym (ap (add_value (some tt)) empty) ∙ e))
      | inr (ws, full) ↦
          let (vs, values, all) = extract_joins Ts rs xs ws h full in
          ((v, vs), rw values, λ i. (here i, all i))
    ]
