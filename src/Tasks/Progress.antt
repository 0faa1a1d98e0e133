-- ===== src/Tasks/Progress.antt =====
-- One task of when_all after another completes: include/servd/Task.hpp.
use servd.Base.{
  ℕ, zero, suc, ◌+◌, ◌-◌, ◌%◌, ◌^◌, ◌≤◌, ◌<◌, ◌≡◌, refl, sym, ap, ◌∙◌, Bool, true, false, ◌&&◌,
  Option, none, some, List, [], ◌∷◌, length, arith, get_elem?, set, length-set, ◌==◌, if◌then◌else◌,
}
use servd.Result.{Error, Result, ok, err}
use servd.Tasks.{WhenAllState, final_await, complete}
use servd.Tasks.Schedule.{pending}

pub pending-set :
    (done : List Bool) (i : ℕ)
    → get_elem? done i ≡ some false
    → pending done ≡ suc (pending (set done i true))
pending-set [] i h = cc
pending-set (b ∷ bs) zero h = ground arith
pending-set (true ∷ bs) (suc i) h = pending-set bs i h
pending-set (false ∷ bs) (suc i) h = ap suc (pending-set bs i h)

pending-le-length : (done : List Bool) → pending done ≤ length done
pending-le-length [] = omega arith
pending-le-length (true ∷ bs) = omega (arith, pending-le-length bs)
pending-le-length (false ∷ bs) = omega (arith, pending-le-length bs)

module _ {ℓ} {A : Type ℓ} where
  abbrev slot_of : Bool → Result A → Option A
  slot_of true (ok v) = some v
  slot_of true (err e) = none
  slot_of false r = none

  -- The slots, where `done` marks the complete tasks.
  abbrev pub filled : List Bool → List (Result A) → List (Option A)
  filled [] rs = []
  filled (b ∷ bs) [] = []
  filled (b ∷ bs) (r ∷ rs) = slot_of b r ∷ filled bs rs

  abbrev OkIf : Bool → Result A → Type 0
  OkIf true (err e) = ⊥
  OkIf true (ok v) = Unit {0}
  OkIf false r = Unit {0}

  -- No complete task has failed.
  abbrev pub OkWhere : List Bool → List (Result A) → Type 0
  OkWhere [] rs = Unit {0}
  OkWhere (b ∷ bs) [] = Unit {0}
  OkWhere (b ∷ bs) (r ∷ rs) = OkIf b r × OkWhere bs rs

  set-filled :
      (done : List Bool) (rs : List (Result A)) (i : ℕ) (v : A)
      → get_elem? rs i ≡ some (ok v)
      → set (filled done rs) i (some v) ≡ filled (set done i true) rs
  set-filled [] rs i v h = refl
  set-filled (b ∷ bs) [] i v h = cc
  set-filled (b ∷ bs) (r ∷ rs) zero v h = cc
  set-filled (b ∷ bs) (r ∷ rs) (suc i) v h = ap (◌∷◌ (slot_of b r)) (set-filled bs rs i v h)

  filled-failed :
      (done : List Bool) (rs : List (Result A)) (i : ℕ) (e : Error)
      → get_elem? done i ≡ some false
      → get_elem? rs i ≡ some (err e)
      → filled (set done i true) rs ≡ filled done rs
  filled-failed [] rs i e d h = refl
  filled-failed (b ∷ bs) [] i e d h = cc
  filled-failed (b ∷ bs) (r ∷ rs) zero e d h = cc
  filled-failed (b ∷ bs) (r ∷ rs) (suc i) e d h =
      ap (◌∷◌ (slot_of b r)) (filled-failed bs rs i e d h)

  OkWhere-set :
      (done : List Bool) (rs : List (Result A)) (i : ℕ) (v : A)
      → get_elem? rs i ≡ some (ok v)
      → OkWhere done rs
      → OkWhere (set done i true) rs
  OkWhere-set [] rs i v h o = tt
  OkWhere-set (b ∷ bs) [] i v h o = cc
  OkWhere-set (b ∷ bs) (ok w ∷ rs) zero v h o = (tt, o.1)
  OkWhere-set (b ∷ bs) (err e ∷ rs) zero v h o = cc
  OkWhere-set (b ∷ bs) (r ∷ rs) (suc i) v h o = (o.0, OkWhere-set bs rs i v h o.1)

  pub has_result :
      (done : List Bool) (rs : List (Result A)) (i : ℕ) (b : Bool)
      → length done ≡ length rs
      → get_elem? done i ≡ some b
      → (r : Result A) × (get_elem? rs i ≡ some r)
  has_result [] rs i b same h = cc
  has_result (c ∷ done) [] i b same h = absurd (omega arith)
  has_result (c ∷ done) (r ∷ rs) zero b same h = (r, refl)
  has_result (c ∷ done) (r ∷ rs) (suc i) b same h = has_result done rs i b (omega arith) h

  -- What the state holds when the tasks that `done` marks are complete.
  pub record IsJoining (rs : List (Result A)) (done : List Bool) (s : WhenAllState A) : Type ℓ where
    pub same : length done ≡ length rs
    pub few : length rs < 2 ^ 31
    pub filling : s.slots ≡ filled done rs
    pub counted : s.remaining ≡ pending done
    pub clean : s.error ≡ none → OkWhere done rs

  module _ (rs : List (Result A)) (done : List Bool) (i : ℕ) where
    one_less :
        (s : WhenAllState A)
        → IsJoining rs done s
        → get_elem? done i ≡ some false
        → (s.remaining + 2 ^ 32 - 1) % 2 ^ 32 ≡ pending (set done i true)
    one_less s v todo =
        omega (arith, v.same, v.few, v.counted, pending-set done i todo, pending-le-length done)

    pub complete-IsJoining :
        (r : Result A) (s : WhenAllState A)
        → IsJoining rs done s
        → get_elem? done i ≡ some false
        → get_elem? rs i ≡ some r
        → IsJoining rs (set done i true) (complete i r s)
    unfolding complete final_await
    complete-IsJoining (ok v) s j todo result = record {
      same = length-set done i true ∙ j.same;
      few = j.few;
      filling = rw j.filling (set-filled done rs i v result);
      counted = one_less s j todo;
      clean = λ h. OkWhere-set done rs i v result (j.clean h);
    }
    complete-IsJoining (err e) s j todo result = record {
      same = length-set done i true ∙ j.same;
      few = j.few;
      filling = j.filling ∙ sym (filled-failed done rs i e todo result);
      counted = one_less s j todo;
      clean = λ h. absurd (cc h);
    }

    -- A task that completes resumes the caller if it is the last one and the loop has ended.
    pub complete_resumed :
        (r : Result A) (s : WhenAllState A)
        → IsJoining rs done s
        → get_elem? done i ≡ some false
        → (complete i r s).resumed ≡ (
            if (pending (set done i true) == 0) && (s.started && s.caller)
            then suc s.resumed
            else s.resumed)
    unfolding complete final_await
    complete_resumed (ok v) s j todo = rw (one_less s j todo)
    complete_resumed (err e) s j todo = rw (one_less s j todo)
