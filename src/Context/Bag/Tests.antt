-- ===== src/Context/Bag/Tests.antt =====
-- Runs of the property bag.
use servd.Base.{ℕ, ◌≡◌, refl, Bool, some, none, [], ◌∷◌}
use servd.Result.{ok, err, bad_any_cast}
use servd.Context.Bag.{AnyTypes, set, get, get_if, get-set}

-- A program that puts flags and numbers into the bag.
data Name : Type 0 where
  flag : Name
  number : Name

abbrev Values : Name → Type 0
Values flag = Bool
Values number = ℕ

same_name : (s t : Name) → Dec (s ≡ t)
same_name flag flag = yes refl
same_name flag number = no (λ e. cc e)
same_name number flag = no (λ e. cc e)
same_name number number = yes refl

abbrev names : AnyTypes
names = record { TypeName = Name; ValueOf = Values; same_type = same_name }

get-set_example :
    ((get names number (b'a' ∷ []) (set names number (b'a' ∷ []) 7 []) ≡ ok 7)
      × (get_if names number (b'a' ∷ []) (set names number (b'a' ∷ []) 7 []) ≡ some 7))
    × ((get names flag (b'a' ∷ []) (set names number (b'a' ∷ []) 7 []) ≡ err bad_any_cast)
        × (get_if names flag (b'a' ∷ []) (set names number (b'a' ∷ []) 7 []) ≡ none))
    × ((get names flag [] (set names number (b'a' ∷ []) 7 []) ≡ get names flag [] [])
        × (get_if names flag [] (set names number (b'a' ∷ []) 7 []) ≡ get_if names flag [] []))
get-set_example = get-set names flag number flag [] (b'a' ∷ []) 7 [] (λ e. cc e) (λ e. cc e)
