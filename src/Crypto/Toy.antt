-- ===== src/Crypto/Toy.antt =====
-- A stand-in for Botan that computes, to show that its documented behaviour can be met.
use native.Mathlib.Nat.{add_comm}
use servd.Base.{
  ℕ, ◌+◌, ◌-◌, ◌≡◌, refl, ap, true, none, some, List, ◌++◌, arith, length, take, drop, replicate,
  length-append, take-append, drop-append, text_eq, text_eq_refl, of_le_bytes, if◌then◌else◌,
}
use servd.Crypto.{Botan, IsBotan}

abbrev zero_tag : List ℕ
zero_tag = replicate 16 0

abbrev pub toy : Botan
toy = record {
  available = true;
  private_bits = λ k. replicate 32 (k + 1);
  public_value = λ p. p;
  derive_key = λ p q. some (replicate 32 (of_le_bytes p + of_le_bytes q));
  seal = λ key nonce prior buf. buf ++ replicate 16 0;
  unseal = λ key nonce prior buf.
      if text_eq (drop (length buf - 16) buf) (replicate 16 0)
      then some (take (length buf - 16) buf)
      else none;
}

unseal-toy :
    (buf : List ℕ)
    → (if text_eq (drop (length (buf ++ zero_tag) - 16) (buf ++ zero_tag)) zero_tag
        then some (take (length (buf ++ zero_tag) - 16) (buf ++ zero_tag))
        else none)
      ≡ some buf
unseal-toy buf = rw (
  size,
  drop-append (length buf) buf zero_tag refl,
  take-append (length buf) buf zero_tag refl,
  text_eq_refl zero_tag,
)
  where
    size : length (buf ++ zero_tag) - 16 ≡ length buf
    size = omega (arith, length-append buf zero_tag)

pub toy-IsBotan : IsBotan toy
toy-IsBotan = record {
  is_available = refl;
  length-private_bits = λ k. refl;
  length-public_value = λ p h. h;
  derives = λ p q hp hq. (
    replicate 32 (of_le_bytes p + of_le_bytes q),
    refl,
    refl,
    ap (λ (n : ℕ). some (replicate 32 n)) (add_comm (of_le_bytes q) (of_le_bytes p)),
  );
  length-seal = λ key nonce buf. length-append buf zero_tag;
  unseal-seal = λ key nonce buf. unseal-toy buf;
}
