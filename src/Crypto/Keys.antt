-- ===== src/Crypto/Keys.antt =====
-- The wrappers of include/servd/crypto/X25519.hpp and AesGcm.hpp, where Botan behaves as documented.
use servd.Base.{ℕ, ◌-◌, ◌≡◌, refl, List, [], arith, length, take-all, append-nil, ltb, false}
use servd.Result.{ok}
use servd.Crypto.{
  Botan, IsBotan, fit, make_cipher, encrypt, decrypt, generate_private, public_key, shared_secret,
}

pub fit_self : (n : ℕ) (bs : List ℕ) → length bs ≡ n → fit n bs ≡ bs
unfolding fit
fit_self n bs h =
    let none_left : n - length bs ≡ 0 = omega arith in
    rw (none_left, take-all n bs (omega arith)) (append-nil bs)

module _ (b : Botan) (v : IsBotan b) where
  pub length-generate_private : (k : ℕ) → length (generate_private b k) ≡ 32
  unfolding generate_private
  length-generate_private k =
      rw (fit_self 32 (b.private_bits k) (v.length-private_bits k)) (v.length-private_bits k)

  pub public_key-eq : (p : List ℕ) → length p ≡ 32 → public_key b p ≡ b.public_value p
  unfolding public_key
  public_key-eq p h = fit_self 32 (b.public_value p) (v.length-public_value p h)

  -- Both sides of an exchange compute the same 32 bytes.
  pub shared_secret_agrees :
      (p q : List ℕ)
      → length p ≡ 32
      → length q ≡ 32
      → (s : List ℕ) × (length s ≡ 32)
        × (shared_secret b p (public_key b q) ≡ ok s)
        × (shared_secret b q (public_key b p) ≡ ok s)
  unfolding shared_secret
  shared_secret_agrees p q hp hq =
      let (s, size, pq, qp) = v.derives p q hp hq in
      (
        s,
        size,
        rw (public_key-eq q hq, pq, fit_self 32 s size),
        rw (public_key-eq p hp, qp, fit_self 32 s size),
      )

  pub make_cipher_ok : (key : List ℕ) → length key ≡ 32 → make_cipher b key 32 ≡ ok key
  unfolding make_cipher
  make_cipher_ok key h = rw (v.is_available, take-all 32 key (omega arith))

  pub encrypt_ok :
      (key iv buf : List ℕ) → length iv ≡ 12 → encrypt b key buf [] iv ≡ ok (b.seal key iv [] buf)
  unfolding encrypt
  encrypt_ok key iv buf h = rw h

  pub decrypt_seal :
      (key iv buf : List ℕ) → length iv ≡ 12 → decrypt b key (b.seal key iv [] buf) [] iv ≡ ok buf
  unfolding decrypt
  decrypt_seal key iv buf h =
      let long : ltb (length (b.seal key iv [] buf)) 16 ≡ false =
        ground (arith, v.length-seal key iv buf) in
      let size : length (b.seal key iv [] buf) - 16 ≡ length buf =
        omega (arith, v.length-seal key iv buf) in
      rw (h, long, v.unseal-seal key iv buf, size, fit_self (length buf) buf refl)
