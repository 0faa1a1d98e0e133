-- ===== src/Exec/Laws.antt =====
-- Invariants of a request's coroutine, one rule for each way to build it.
use servd.Result.{Result, ok, err}
use servd.Exec.{Io, Exec, pure, lift, continue, ◌>>=◌}

-- `m` leads from a state with `P` to a state with `P`, whether it returns or throws.
pub record Keeps {A : Type 0} (P : Io → Type 0) (m : Exec A) : Type 0 where
  pub at : (io : Io) → P io → P (m io).1

module _ {P : Io → Type 0} where
  pub Keeps-pure : {A : Type 0} (a : A) → Keeps P (pure a)
  Keeps-pure a = record { at = λ io h. h }

  pub Keeps-lift : {A : Type 0} (r : Result A) → Keeps P (lift r)
  Keeps-lift r = record { at = λ io h. h }

  Keeps-continue :
      {A B : Type 0} (r : Result A) (f : A → Exec B) (io : Io)
      → ((a : A) → Keeps P (f a))
      → P io
      → P (continue r f io).1
  Keeps-continue (ok a) f io kf h = (kf a).at io h
  Keeps-continue (err e) f io kf h = h

  pub Keeps-bind :
      {A B : Type 0} (m : Exec A) (f : A → Exec B)
      → Keeps P m
      → ((a : A) → Keeps P (f a))
      → Keeps P (m >>= f)
  Keeps-bind m f km kf = record { at = λ io h. Keeps-continue (m io).0 f (m io).1 kf (km.at io h) }
