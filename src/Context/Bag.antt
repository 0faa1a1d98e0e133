-- ===== src/Context/Bag.antt =====
-- The property bag of a context (set, get and get_if of include/servd/Context.hpp): values of any
-- type under byte strings. The types that a program puts in are a parameter: their names, which can
-- be compared as std::type_info can, and the values of each.
mod Tests
use servd.Base.{
  ℕ, ◌≡◌, ◌≢◌, refl, sym, ap, ◌∙◌, subst, Bool, true, false, Option, none, some, List, [], ◌∷◌,
  arith, if◌then◌else◌, text_eq, text_eq_refl, text_eq_sound,
}
use servd.Result.{Result, ok, err, out_of_range, bad_any_cast}
use mathlib.Core.HLevel.{hedberg}
use mathlib.Core.Path.{subst_refl}

-- The types of the values: `type_name` names them, `value_of` has the values of one.
pub record AnyTypes : Type 1 where
  pub TypeName : Type 0
  pub ValueOf : TypeName → Type 0
  pub same_type : (s t : TypeName) → Dec (s ≡ t)

module _ (T : AnyTypes) where
  -- std::any
  pub record Any : Type 0 where
    pub type_name : T.TypeName
    pub value : T.ValueOf type_name

  abbrev pub Locals : Type 0
  Locals = List (List ℕ × Any)

  -- locals_[key] = value
  set_any : List ℕ → Any → Locals → Locals
  set_any key x [] = (key, x) ∷ []
  set_any key x ((k, y) ∷ locals) =
      if text_eq k key then (key, x) ∷ locals else (k, y) ∷ set_any key x locals

  find_any : List ℕ → Locals → Option Any
  find_any key [] = none
  find_any key ((k, y) ∷ locals) = if text_eq k key then some y else find_any key locals

  -- std::any_cast of a pointer: none where it returns null
  cast_from : {s t : T.TypeName} → Dec (s ≡ t) → T.ValueOf s → Option (T.ValueOf t)
  cast_from (yes same) value = some (subst T.ValueOf same value)
  cast_from (no other) value = none

  any_cast : (t : T.TypeName) → Any → Option (T.ValueOf t)
  any_cast t x = cast_from (T.same_type x.type_name t) x.value

  pub set : (t : T.TypeName) → List ℕ → T.ValueOf t → Locals → Locals
  set t key value = set_any key (record { type_name = t; value = value })

  cast_or_throw : {A : Type 0} → Option A → Result A
  cast_or_throw none = err bad_any_cast
  cast_or_throw (some value) = ok value

  get_found : (t : T.TypeName) → Option Any → Result (T.ValueOf t)
  get_found t none = err out_of_range
  get_found t (some x) = cast_or_throw (any_cast t x)

  pub get : (t : T.TypeName) → List ℕ → Locals → Result (T.ValueOf t)
  get t key locals = get_found t (find_any key locals)

  get_if_found : (t : T.TypeName) → Option Any → Option (T.ValueOf t)
  get_if_found t none = none
  get_if_found t (some x) = any_cast t x

  pub get_if : (t : T.TypeName) → List ℕ → Locals → Option (T.ValueOf t)
  get_if t key locals = get_if_found t (find_any key locals)

  find-set_any :
      (j k : List ℕ) (x : Any) (locals : Locals)
      → find_any j (set_any k x locals) ≡ (if text_eq k j then some x else find_any j locals)
  unfolding find_any set_any
  find-set_any j k x [] = refl
  find-set_any j k x ((i, y) ∷ locals) = ground (
    arith,
    find-set_any j k x locals,
    text_eq_sound i k,
    text_eq_sound i j,
    text_eq_sound k j,
    text_eq_refl k,
  )

  cast_from_self : (t : T.TypeName) (d : Dec (t ≡ t)) (v : T.ValueOf t) → cast_from d v ≡ some v
  unfolding cast_from
  cast_from_self t (yes e) v =
      ap some
        (ap (λ p. subst T.ValueOf p v) (hedberg T.same_type t t e refl) ∙ subst_refl T.ValueOf v)
  cast_from_self t (no e) v = absurd (e refl)

  cast_from_other :
      (s t : T.TypeName) (d : Dec (s ≡ t)) (v : T.ValueOf s) → s ≢ t → cast_from d v ≡ none
  unfolding cast_from
  cast_from_other s t (yes e) v h = absurd (h e)
  cast_from_other s t (no e) v h = refl

  find-set_any_self :
      (k : List ℕ) (x : Any) (locals : Locals) → find_any k (set_any k x locals) ≡ some x
  find-set_any_self k x locals = rw (find-set_any, text_eq_refl k)

  find-set_any_ne :
      (j k : List ℕ) (x : Any) (locals : Locals)
      → j ≢ k
      → find_any j (set_any k x locals) ≡ find_any j locals
  find-set_any_ne j k x locals other = find-set_any j k x locals ∙ ground (arith, text_eq_sound k j)

  -- What `get` and `get_if` find behind `set`: under its key the value that was set, if they ask for
  -- its own type, and a std::bad_any_cast, or null, if they ask for another; under every other key,
  -- at any type, what was there before.
  pub get-set :
      (s t u : T.TypeName) (j k : List ℕ) (v : T.ValueOf t) (locals : Locals)
      → s ≢ t
      → j ≢ k
      → ((get t k (set t k v locals) ≡ ok v) × (get_if t k (set t k v locals) ≡ some v))
        × ((get s k (set t k v locals) ≡ err bad_any_cast) × (get_if s k (set t k v locals) ≡ none))
        × ((get u j (set t k v locals) ≡ get u j locals)
            × (get_if u j (set t k v locals) ≡ get_if u j locals))
  unfolding get get_if set get_found get_if_found any_cast cast_or_throw
  get-set s t u j k v locals s≢t j≢k =
      let x : Any = record { type_name = t; value = v } in
      let here = find-set_any_self k x locals in
      let there = find-set_any_ne j k x locals j≢k in
      let same = cast_from_self t (T.same_type t t) v in
      let other = cast_from_other t s (T.same_type t s) v (λ e. s≢t (sym e)) in
      (
        (rw (here, same), rw (here, same)),
        (rw (here, other), rw (here, other)),
        (ap (get_found u) there, ap (get_if_found u) there),
      )
