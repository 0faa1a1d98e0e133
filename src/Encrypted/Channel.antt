-- ===== src/Encrypted/Channel.antt =====
-- The message format of src/UringEngine/EncryptedHandler.cpp.
use servd.Base.{
  ℕ, ◌-◌, ◌^◌, ◌≤◌, ◌<◌, ◌≡◌, sym, ap, ◌∙◌, true, false, ltb, drop-drop, some, List, [], ◌++◌,
  arith, length, take, drop, length-append, length-drop, take-append, drop-append, take-append-drop,
  le_bytes, length-le_bytes, of_le_bytes-le_bytes,
}
use servd.Result.{ok}
use servd.Session.{Session}
use servd.Crypto.{Botan, IsBotan}
use servd.Crypto.Keys.{make_cipher_ok, encrypt_ok, decrypt_seal}
use servd.Encrypted.{do_decrypt, seal_message, parse_plaintext}

-- A nonce in front of an encrypted buffer whose tag was moved to its front.
abbrev pub layout : List ℕ → List ℕ → List ℕ
layout iv enc = iv ++ (drop (length enc - 16) enc ++ take (length enc - 16) enc)

module _ (iv enc : List ℕ) (nonce : length iv ≡ 12) (tagged : 16 ≤ length enc) where
  length-tag : length (drop (length enc - 16) enc) ≡ 16
  length-tag = omega (arith, length-drop (length enc - 16) enc)

  take-layout : take 12 (layout iv enc) ≡ iv
  take-layout = take-append 12 iv (drop (length enc - 16) enc ++ take (length enc - 16) enc) nonce

  drop-layout : drop 12 (layout iv enc) ≡ drop (length enc - 16) enc ++ take (length enc - 16) enc
  drop-layout = drop-append 12 iv (drop (length enc - 16) enc ++ take (length enc - 16) enc) nonce

  -- The ciphertext and the tag are put back in the cipher's order.
  reassemble : drop 28 (layout iv enc) ++ take 16 (drop 12 (layout iv enc)) ≡ enc
  reassemble =
      rw
        (
          sym (drop-drop 12 16 (layout iv enc)),
          drop-layout,
          take-append 16 (drop (length enc - 16) enc) (take (length enc - 16) enc) length-tag,
          drop-append 16 (drop (length enc - 16) enc) (take (length enc - 16) enc) length-tag,
        )
        (take-append-drop (length enc - 16) enc)

  length-layout : 28 ≤ length (layout iv enc)
  length-layout = omega (
    arith,
    length-append iv (drop (length enc - 16) enc ++ take (length enc - 16) enc),
    length-append (drop (length enc - 16) enc) (take (length enc - 16) enc),
    length-tag,
  )

module _ (b : Botan) (v : IsBotan b) where
  pub seal_message_ok :
      (key iv : List ℕ) (cmd : ℕ) (payload : List ℕ)
      → length iv ≡ 12
      → seal_message b key iv cmd payload
        ≡ ok (layout iv (b.seal key iv [] (le_bytes 2 cmd ++ payload)))
  unfolding seal_message
  seal_message_ok key iv cmd payload h = rw (encrypt_ok b v key iv (le_bytes 2 cmd ++ payload) h)

  parse_sealed :
      (key : List ℕ) (cmd : ℕ) (payload : List ℕ)
      → cmd < 256 ^ 2
      → parse_plaintext key (ok (le_bytes 2 cmd ++ payload))
        ≡ some (record { cipher = key; inner_cmd = cmd; inner_payload = payload })
  unfolding parse_plaintext
  parse_sealed key cmd payload fits =
      let long : ltb (length (le_bytes 2 cmd ++ payload)) 2 ≡ false =
        ground (arith, length-append (le_bytes 2 cmd) payload, length-le_bytes 2 cmd) in
      rw (
        long,
        take-append 2 (le_bytes 2 cmd) payload (length-le_bytes 2 cmd),
        drop-append 2 (le_bytes 2 cmd) payload (length-le_bytes 2 cmd),
        of_le_bytes-le_bytes 2 cmd fits,
      )

  do_decrypt-layout :
      (s : Session) (iv inner : List ℕ)
      → s.has_aes_key ≡ true
      → length s.aes_key ≡ 32
      → length iv ≡ 12
      → do_decrypt b (layout iv (b.seal s.aes_key iv [] inner)) s
        ≡ ok (parse_plaintext s.aes_key (ok inner))
  unfolding do_decrypt
  do_decrypt-layout s iv inner keyed size nonce =
      let enc = b.seal s.aes_key iv [] inner in
      let tagged : 16 ≤ length enc = omega (arith, v.length-seal s.aes_key iv inner) in
      let long : ltb (length (layout iv enc)) 28 ≡ false =
        ground (arith, length-layout iv enc nonce tagged) in
      rw (
        keyed,
        long,
        make_cipher_ok b v s.aes_key size,
        take-layout iv enc nonce tagged,
        reassemble iv enc nonce tagged,
        decrypt_seal b v s.aes_key iv inner nonce,
      )

  -- Whoever holds the session's key opens a sealed message to the command and the payload that
  -- were sealed, for any 12-byte nonce.
  pub do_decrypt-seal_message :
      (s : Session) (iv : List ℕ) (cmd : ℕ) (payload : List ℕ)
      → s.has_aes_key ≡ true
      → length s.aes_key ≡ 32
      → length iv ≡ 12
      → cmd < 256 ^ 2
      → (out : List ℕ) × (seal_message b s.aes_key iv cmd payload ≡ ok out)
        × (do_decrypt b out s
            ≡ ok (some (record { cipher = s.aes_key; inner_cmd = cmd; inner_payload = payload })))
  do_decrypt-seal_message s iv cmd payload keyed size nonce fits = (
    layout iv (b.seal s.aes_key iv [] (le_bytes 2 cmd ++ payload)),
    seal_message_ok s.aes_key iv cmd payload nonce,
    do_decrypt-layout s iv (le_bytes 2 cmd ++ payload) keyed size nonce
        ∙ ap ok (parse_sealed s.aes_key cmd payload fits),
  )
