-- ===== src/Tasks/Join.antt =====
-- when_all from the first task to the last: include/servd/Task.hpp.
use servd.Base.{
  ℕ, suc, ◌≤◌, ◌≡◌, refl, sym, ap, subst, ◌∙◌, Bool, true, false, not, ◌&&◌, Option, none, some,
  List, [], ◌∷◌, ◌++◌, length, arith, append_assoc, get_elem?, get_elem?-append, set, set-append,
  length-snoc, replicate, ◌==◌, if◌then◌else◌,
}
use servd.Result.{Error, Result, ok, err}
use servd.Tasks.{WhenAllState, wrapper_ends, final_await, complete, resume_wrappers}
use servd.Tasks.Schedule.{
  pending, after, Valid, at_once, complete_at, complete_all, failure, last_error, first_order,
}
use servd.Tasks.Progress.{pending-set, has_result, IsJoining, complete-IsJoining, complete_resumed}

module _ {ℓ} {A : Type ℓ} (rs : List (Result A)) where
  pub complete_all-IsJoining :
      (done : List Bool) (is : List ℕ) (s : WhenAllState A)
      → Valid done is
      → IsJoining rs done s
      → IsJoining rs (after done is) (complete_all rs is s)
  unfolding complete_all
  complete_all-IsJoining done [] s v j = j
  complete_all-IsJoining done (i ∷ is) s v j =
      let (r, e) = has_result done rs i false j.same v.0 in
      rw e (
        complete_all-IsJoining (set done i true) is (complete i r s) v.1
          (complete-IsJoining rs done i r s j v.0 e))

  complete_at_error :
      (i : ℕ) (o : Option (Result A)) (s : WhenAllState A)
      → (complete_at i o s).error ≡ failure o s.error
  unfolding complete_at complete final_await wrapper_ends
  complete_at_error i none s = refl
  complete_at_error i (some (ok v)) s = refl
  complete_at_error i (some (err e)) s = refl

  pub complete_all_error :
      (is : List ℕ) (s : WhenAllState A) → (complete_all rs is s).error ≡ last_error rs s.error is
  unfolding complete_all
  complete_all_error [] s = refl
  complete_all_error (i ∷ is) s =
      complete_all_error is (complete_at i (get_elem? rs i) s)
      ∙ ap (λ (x : Option Error). last_error rs x is) (complete_at_error i (get_elem? rs i) s)

  complete_started :
      (i : ℕ) (r : Result A) (s : WhenAllState A)
      → ((complete i r s).started ≡ s.started) × ((complete i r s).caller ≡ s.caller)
  unfolding complete final_await wrapper_ends
  complete_started i (ok v) s = (refl, refl)
  complete_started i (err e) s = (refl, refl)

  complete_at_started :
      (i : ℕ) (o : Option (Result A)) (s : WhenAllState A)
      → ((complete_at i o s).started ≡ s.started) × ((complete_at i o s).caller ≡ s.caller)
  unfolding complete_at
  complete_at_started i none s = (refl, refl)
  complete_at_started i (some r) s = complete_started i r s

  pub complete_all_started :
      (is : List ℕ) (s : WhenAllState A)
      → ((complete_all rs is s).started ≡ s.started) × ((complete_all rs is s).caller ≡ s.caller)
  unfolding complete_all
  complete_all_started [] s = (refl, refl)
  complete_all_started (i ∷ is) s =
      let (a, b) = complete_all_started is (complete_at i (get_elem? rs i) s) in
      let (c, d) = complete_at_started i (get_elem? rs i) s in (a ∙ c, b ∙ d)

  -- While the loop runs, nobody is resumed.
  pub complete_all_silent :
      (done : List Bool) (is : List ℕ) (s : WhenAllState A)
      → Valid done is
      → IsJoining rs done s
      → s.started ≡ false
      → (complete_all rs is s).resumed ≡ s.resumed
  unfolding complete_all
  complete_all_silent done [] s v j quiet = refl
  complete_all_silent done (i ∷ is) s v j quiet =
      let (r, e) = has_result done rs i false j.same v.0 in
      let rest =
        complete_all_silent (set done i true) is (complete i r s) v.1
          (complete-IsJoining rs done i r s j v.0 e) ((complete_started i r s).0 ∙ quiet) in
      let here : (complete i r s).resumed ≡ s.resumed =
        ground (arith, complete_resumed rs done i r s j v.0) in
      rw (complete_all, e) (rest ∙ here)

  pub pending-after :
      (done : List Bool) (is : List ℕ) → Valid done is → pending (after done is) ≤ pending done
  pending-after done [] v = omega arith
  pending-after done (i ∷ is) v =
      omega (arith, pending-set done i v.0, pending-after (set done i true) is v.1)

  -- After the loop, the task that completes last resumes the caller, and no other does.
  pub complete_all_resumed :
      (done : List Bool) (is : List ℕ) (s : WhenAllState A)
      → Valid done is
      → IsJoining rs done s
      → s.started ≡ true
      → s.caller ≡ true
      → (complete_all rs is s).resumed ≡ (
          if not (pending done == 0) && (pending (after done is) == 0)
          then suc s.resumed
          else s.resumed)
  unfolding complete_all
  complete_all_resumed done [] s v j started caller = ground arith
  complete_all_resumed done (i ∷ is) s v j started caller =
      let (r, e) = has_result done rs i false j.same v.0 in
      let rest =
        complete_all_resumed (set done i true) is (complete i r s) v.1
          (complete-IsJoining rs done i r s j v.0 e) ((complete_started i r s).0 ∙ started)
          ((complete_started i r s).1 ∙ caller) in
      rw (complete_all, e)
        (ground (
          arith,
          rest,
          complete_resumed rs done i r s j v.0,
          pending-set done i v.0,
          pending-after (set done i true) is v.1,
        ))

-- The loop completes the marked tasks, in order, and no other.
pub after-first_order :
    (front back : List Bool) (i : ℕ)
    → i ≡ length front
    → after (front ++ replicate (length back) false) (first_order i back) ≡ front ++ back
after-first_order front [] i h = refl
after-first_order front (true ∷ bs) i h =
    ap (λ (d : List Bool). after d (first_order (suc i) bs))
      (set-append front false true (replicate (length bs) false) i h)
    ∙ after-first_order (front ++ (true ∷ [])) bs (suc i) (length-snoc front true i h)
    ∙ append_assoc front (true ∷ []) bs
after-first_order front (false ∷ bs) i h =
    ap (λ (d : List Bool). after d (first_order (suc i) bs))
      (sym (append_assoc front (false ∷ []) (replicate (length bs) false)))
    ∙ after-first_order (front ++ (false ∷ [])) bs (suc i) (length-snoc front false i h)
    ∙ append_assoc front (false ∷ []) bs

pub first_order-Valid :
    (front back : List Bool) (i : ℕ)
    → i ≡ length front
    → Valid (front ++ replicate (length back) false) (first_order i back)
first_order-Valid front [] i h = tt
first_order-Valid front (true ∷ bs) i h =
    let todo = replicate (length bs) false in
    let rest = first_order-Valid (front ++ (true ∷ [])) bs (suc i) (length-snoc front true i h) in
    (
      get_elem?-append front false todo i h,
      subst (λ (d : List Bool). Valid d (first_order (suc i) bs))
          (sym (set-append front false true todo i h)) rest,
    )
first_order-Valid front (false ∷ bs) i h =
    subst (λ (d : List Bool). Valid d (first_order (suc i) bs))
      (append_assoc front (false ∷ []) (replicate (length bs) false))
      (first_order-Valid (front ++ (false ∷ [])) bs (suc i) (length-snoc front false i h))

module _ {ℓ} {A : Type ℓ} where
  pub resume_wrappers-complete_all :
      (front back : List (Result A)) (done : List Bool) (i : ℕ) (s : WhenAllState A)
      → i ≡ length front
      → length done ≡ length back
      → resume_wrappers i (at_once done back) s
        ≡ complete_all (front ++ back) (first_order i done) s
  unfolding resume_wrappers complete_all complete_at
  resume_wrappers-complete_all front [] [] i s h same = refl
  resume_wrappers-complete_all front (r ∷ rs) [] i s h same = absurd (omega arith)
  resume_wrappers-complete_all front [] (b ∷ bs) i s h same = absurd (omega arith)
  resume_wrappers-complete_all front (r ∷ rs) (true ∷ bs) i s h same =
      resume_wrappers-complete_all (front ++ (r ∷ [])) rs bs (suc i) (complete i r s)
        (length-snoc front r i h) (omega arith)
      ∙ ap (λ (l : List (Result A)). complete_all l (first_order (suc i) bs) (complete i r s))
          (append_assoc front (r ∷ []) rs)
      ∙ ap
          (λ (o : Option (Result A)).
            complete_all (front ++ (r ∷ rs)) (first_order (suc i) bs) (complete_at i o s))
          (sym (get_elem?-append front r rs i h))
  resume_wrappers-complete_all front (r ∷ rs) (false ∷ bs) i s h same =
      resume_wrappers-complete_all (front ++ (r ∷ [])) rs bs (suc i) s (length-snoc front r i h)
        (omega arith)
      ∙ ap (λ (l : List (Result A)). complete_all l (first_order (suc i) bs) s)
          (append_assoc front (r ∷ []) rs)
