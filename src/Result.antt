-- ===== src/Result.antt =====
-- The exceptions that the source throws, and code that may throw as a result type.
use servd.Base.{ℕ, ◌≡◌, refl, ◌⊎◌, inl, inr}

pub data Error : Type 0 where
  connection_closed : Error
  system_error : ℕ → Error
  store_missing : Error
  bad_nonce : Error
  short_ciphertext : Error
  bad_key_size : Error
  crypto_failure : Error
  handler_failure : ℕ → Error
  invalid_argument : Error
  out_of_range : Error
  cannot_open : Error
  no_thread_pool : Error
  random_failed : Error
  socket_failed : Error
  bind_failed : Error
  listen_failed : Error
  bad_function_call : Error
  bad_any_cast : Error

pub data Result {ℓ} (A : Type ℓ) : Type ℓ where
  ok : A → Result A
  err : Error → Result A

infixl 5 ◌>>=◌ ◌>>◌
abbrev pub ◌>>=◌ {ℓ κ} : {A : Type ℓ} {B : Type κ} → Result A → (A → Result B) → Result B
ok a >>= f = f a
err e >>= f = err e

abbrev pub ◌>>◌ {ℓ κ} : {A : Type ℓ} {B : Type κ} → Result A → Result B → Result B
m >> k = m >>= λ _. k

pub Result-cases {ℓ} :
    {A : Type ℓ} (r : Result A) → ((a : A) × (r ≡ ok a)) ⊎ ((e : Error) × (r ≡ err e))
Result-cases (ok a) = inl (a, refl)
Result-cases (err e) = inr (e, refl)
