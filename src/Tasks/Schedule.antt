-- ===== src/Tasks/Schedule.antt =====
-- The order in which the tasks of when_all complete: include/servd/Task.hpp.
use servd.Base.{ℕ, suc, ◌≡◌, Bool, true, false, Option, none, some, List, [], ◌∷◌, get_elem?, set}
use servd.Result.{Error, Result, ok, err}
use servd.Tasks.{WhenAllState, complete}

-- How many tasks are not complete yet.
abbrev pub pending : List Bool → ℕ
pending [] = 0
pending (true ∷ bs) = pending bs
pending (false ∷ bs) = suc (pending bs)

abbrev pub after : List Bool → List ℕ → List Bool
after done [] = done
after done (i ∷ is) = after (set done i true) is

-- Each index names a task that is not complete when its turn comes.
abbrev pub Valid : List Bool → List ℕ → Type 0
Valid done [] = Unit {0}
Valid done (i ∷ is) = (get_elem? done i ≡ some false) × Valid (set done i true) is

module _ {ℓ} {A : Type ℓ} where
  -- What the wrappers do when they are resumed first, where `done` marks the tasks that do not
  -- suspend.
  abbrev pub at_once : List Bool → List (Result A) → List (Option (Result A))
  at_once [] rs = []
  at_once (b ∷ bs) [] = []
  at_once (true ∷ bs) (r ∷ rs) = some r ∷ at_once bs rs
  at_once (false ∷ bs) (r ∷ rs) = none ∷ at_once bs rs

  unfoldable pub complete_at : ℕ → Option (Result A) → WhenAllState A → WhenAllState A
  complete_at i none s = s
  complete_at i (some r) s = complete i r s

  -- The tasks complete in this order, each with its result.
  unfoldable pub complete_all : List (Result A) → List ℕ → WhenAllState A → WhenAllState A
  unfolding complete_at
  complete_all rs [] s = s
  complete_all rs (i ∷ is) s = complete_all rs is (complete_at i (get_elem? rs i) s)

  abbrev pub failure : Option (Result A) → Option Error → Option Error
  failure (some (err e)) last = some e
  failure (some (ok v)) last = last
  failure none last = last

  -- The error of the last task in this order that failed.
  abbrev pub last_error : List (Result A) → Option Error → List ℕ → Option Error
  last_error rs last [] = last
  last_error rs last (i ∷ is) = last_error rs (failure (get_elem? rs i) last) is

  abbrev pub values_of : List (Result A) → List A
  values_of [] = []
  values_of (ok v ∷ rs) = v ∷ values_of rs
  values_of (err e ∷ rs) = values_of rs

  -- What awaiting the tasks one after another would give, but for which error wins.
  abbrev pub joined : List (Result A) → Option Error → Result (List A)
  joined rs (some e) = err e
  joined rs none = ok (values_of rs)

-- The tasks that complete at once, in the order of the loop.
abbrev pub first_order : ℕ → List Bool → List ℕ
first_order i [] = []
first_order i (true ∷ bs) = i ∷ first_order (suc i) bs
first_order i (false ∷ bs) = first_order (suc i) bs
