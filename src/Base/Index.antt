-- ===== src/Base/Index.antt =====
-- Lists by position: what a write changes.
use Prim.Native.Nat.{ℕ, zero, suc, ◌+◌, ◌<◌}
use mathlib.Core.Path.{◌≡◌, refl, ap}
use mathlib.Core.Logic.{◌⊎◌, inl, inr}
use mathlib.Core.Option.{some}
use mathlib.Core.List.{List, [], ◌∷◌, ◌++◌}
use native.Mathlib.Omega.{arith}
use servd.Base.Lists.{length, length-append, replicate, get_elem?, set}
use servd.Base.Tests.{◌==◌, if◌then◌else◌}

module _ {ℓ} {A : Type ℓ} where
  pub get_elem?-append :
      (front : List A) (x : A) (back : List A) (i : ℕ)
      → i ≡ length front
      → get_elem? (front ++ (x ∷ back)) i ≡ some x
  get_elem?-append [] x back zero h = refl
  get_elem?-append [] x back (suc i) h = absurd (omega arith)
  get_elem?-append (y ∷ ys) x back zero h = absurd (omega arith)
  get_elem?-append (y ∷ ys) x back (suc i) h = get_elem?-append ys x back i (omega arith)

  pub set-append :
      (front : List A) (x y : A) (back : List A) (i : ℕ)
      → i ≡ length front
      → set (front ++ (x ∷ back)) i y ≡ (front ++ (y ∷ [])) ++ back
  set-append [] x y back zero h = refl
  set-append [] x y back (suc i) h = absurd (omega arith)
  set-append (z ∷ zs) x y back zero h = absurd (omega arith)
  set-append (z ∷ zs) x y back (suc i) h = ap (◌∷◌ z) (set-append zs x y back i (omega arith))

  pub length-snoc :
      (front : List A) (x : A) (i : ℕ) → i ≡ length front → suc i ≡ length (front ++ (x ∷ []))
  length-snoc front x i h = omega (arith, length-append front (x ∷ []))

  pub length-set : (xs : List A) (i : ℕ) (v : A) → length (set xs i v) ≡ length xs
  length-set [] i v = refl
  length-set (x ∷ xs) zero v = refl
  length-set (x ∷ xs) (suc i) v = ap suc (length-set xs i v)

  pub get_elem?-set :
      (xs : List A) (i k : ℕ) (v : A)
      → i < length xs
      → get_elem? (set xs i v) k ≡ (if i == k then some v else get_elem? xs k)
  get_elem?-set [] i k v h = absurd (omega arith)
  get_elem?-set (x ∷ xs) zero zero v h = refl
  get_elem?-set (x ∷ xs) zero (suc k) v h = ground arith
  get_elem?-set (x ∷ xs) (suc i) zero v h = ground arith
  get_elem?-set (x ∷ xs) (suc i) (suc k) v h = ground (arith, get_elem?-set xs i k v (omega arith))

  pub get_elem?-lt : (xs : List A) (i : ℕ) {x : A} → get_elem? xs i ≡ some x → i < length xs
  get_elem?-lt [] i h = absurd (cc h)
  get_elem?-lt (y ∷ ys) zero h = omega arith
  get_elem?-lt (y ∷ ys) (suc i) h = omega (arith, get_elem?-lt ys i h)

  pub get_elem?-some : (xs : List A) (i : ℕ) → i < length xs → (x : A) × (get_elem? xs i ≡ some x)
  get_elem?-some [] i h = absurd (omega arith)
  get_elem?-some (y ∷ ys) zero h = (y, refl)
  get_elem?-some (y ∷ ys) (suc i) h = get_elem?-some ys i (omega arith)

  pub snoc-cases :
      (xs : List A) (x : A) (i : ℕ) {y : A}
      → get_elem? (xs ++ (x ∷ [])) i ≡ some y
      → (get_elem? xs i ≡ some y) ⊎ (x ≡ y)
  snoc-cases [] x zero h = inr (cc)
  snoc-cases [] x (suc i) h = absurd (cc h)
  snoc-cases (z ∷ zs) x zero h = inl h
  snoc-cases (z ∷ zs) x (suc i) h = snoc-cases zs x i h

  pub set-cases :
      (xs : List A) (k : ℕ) (x : A) (i : ℕ) {y : A}
      → get_elem? (set xs k x) i ≡ some y
      → (get_elem? xs i ≡ some y) ⊎ ((k ≡ i) × (x ≡ y))
  set-cases [] k x i h = absurd (cc h)
  set-cases (z ∷ zs) zero x zero h = inr (refl, cc)
  set-cases (z ∷ zs) zero x (suc i) h = inl h
  set-cases (z ∷ zs) (suc k) x zero h = inl h
  set-cases (z ∷ zs) (suc k) x (suc i) h = elim (set-cases zs k x i h) [
    | inl old ↦ inl old
    | inr (same, e) ↦ inr (ap suc same, e)
  ]

  -- A weight of every element, added up.
  unfoldable pub total : (A → ℕ) → List A → ℕ
  total f [] = 0
  total f (x ∷ xs) = f x + total f xs

  pub total-append : (f : A → ℕ) (xs ys : List A) → total f (xs ++ ys) ≡ total f xs + total f ys
  unfolding total
  total-append f [] ys = omega arith
  total-append f (x ∷ xs) ys = omega (arith, total-append f xs ys)

  pub total-set :
      (f : A → ℕ) (xs : List A) (i : ℕ) (x y : A)
      → get_elem? xs i ≡ some x
      → total f (set xs i y) + f x ≡ total f xs + f y
  unfolding total
  total-set f [] i x y h = cc
  total-set f (z ∷ zs) zero x y h = let e : f z ≡ f x = ap f (cc) in omega arith
  total-set f (z ∷ zs) (suc i) x y h = omega (arith, total-set f zs i x y h)

  pub total-replicate : (f : A → ℕ) (n : ℕ) (x : A) → f x ≡ 0 → total f (replicate n x) ≡ 0
  unfolding total
  total-replicate f zero x h = refl
  total-replicate f (suc n) x h = omega (arith, total-replicate f n x h)
