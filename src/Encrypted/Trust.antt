-- ===== src/Encrypted/Trust.antt =====
-- Which messages src/UringEngine/EncryptedHandler.cpp accepts, and which of them have an effect.
use servd.Base.{
  ℕ, ◌≤◌, ◌≡◌, refl, ap, ◌∙◌, ◌⊎◌, inl, inr, true, false, not, ◌||◌, none, some, List, [], ◌++◌,
  arith, length, take, drop, ltb, of_le_bytes, Bool-cases, Option-cases,
}
use servd.Result.{Error, Result, ok, err, Result-cases}
use servd.Session.{Session}
use servd.Context.{Context}
use servd.Router.{Endpoint, get}
use servd.Crypto.{Botan, decrypt, make_cipher}
use servd.Exec.{Env, Io}
use servd.Protocol.{ClientFrame}
use servd.Connection.{Connection, transport_type, u32}
use servd.Access.{Dispatcher, permitted, refreshed}
use servd.Access.Guard.{Allowed, checked, permitted_sound, permitted_state}
use servd.Encrypted.{
  DecryptedMessage, parse_plaintext, do_decrypt, route_found, route_decrypted, do_route_and_send,
  handle_encrypted_message,
}

-- The buffer that is given to the cipher, and the nonce in front of it.
abbrev pub sealed_part : List ℕ → List ℕ
sealed_part payload = drop 28 payload ++ take 16 (drop 12 payload)

-- A plaintext of a message: the cipher opened the message to it, and the message's parts are its.
abbrev pub Authentic : Botan → List ℕ → Session → DecryptedMessage → Type 0
Authentic b payload s msg =
    (s.has_aes_key ≡ true)
    × (28 ≤ length payload)
    × (pt : List ℕ) × (decrypt b msg.cipher (sealed_part payload) [] (take 12 payload) ≡ ok pt)
    × (make_cipher b s.aes_key 32 ≡ ok msg.cipher)
    × (2 ≤ length pt)
    × (msg.inner_cmd ≡ of_le_bytes (take 2 pt))
    × (msg.inner_payload ≡ drop 2 pt)

ok_injective {ℓ} : {A : Type ℓ} {x y : A} → ok x ≡ ok y → x ≡ y
ok_injective h = cc

parse_plaintext_sound :
    (cipher : List ℕ) (r : Result (List ℕ)) (msg : DecryptedMessage)
    → parse_plaintext cipher r ≡ some msg
    → (pt : List ℕ) × (r ≡ ok pt)
      × (msg.cipher ≡ cipher)
      × (2 ≤ length pt)
      × (msg.inner_cmd ≡ of_le_bytes (take 2 pt))
      × (msg.inner_payload ≡ drop 2 pt)
unfolding parse_plaintext
parse_plaintext_sound cipher (err e) msg h = cc
parse_plaintext_sound cipher (ok pt) msg h =
    (pt, refl, ground arith, ground arith, ground arith, ground arith)

-- A message is accepted only in a session that holds a key, only if it has room for a nonce and a
-- tag, and only if the cipher under that key accepts its tag and nonce.
pub do_decrypt-Authentic :
    (b : Botan) (payload : List ℕ) (s : Session) (msg : DecryptedMessage)
    → do_decrypt b payload s ≡ ok (some msg)
    → Authentic b payload s msg
unfolding do_decrypt
do_decrypt-Authentic b payload s msg h =
    elim (Bool-cases (not s.has_aes_key || ltb (length payload) 28)) [
      | inl refused ↦ absurd (cc (rw refused at h))
      | inr tried ↦ elim (Result-cases (make_cipher b s.aes_key 32)) [
        | inr (e, unavailable) ↦ absurd (cc (rw (tried, unavailable) at h))
        | inl (cipher, made) ↦
            let (pt, opened, same, long, cmd, rest) =
              parse_plaintext_sound cipher
                (decrypt b cipher (sealed_part payload) [] (take 12 payload)) msg
                (ok_injective (rw (tried, made) at h)) in
            (ground arith, ground arith, pt, rw same opened, rw same made, long, cmd, rest)
      ]
    ]

err_injective {ℓ} : {A : Type ℓ} {x y : Error} → Path (Result A) (err x) (err y) → x ≡ y
err_injective h = cc

-- Only the construction of the cipher throws.
do_decrypt_fails :
    (b : Botan) (payload : List ℕ) (s : Session) (e : Error)
    → do_decrypt b payload s ≡ err e
    → make_cipher b s.aes_key 32 ≡ err e
unfolding do_decrypt
do_decrypt_fails b payload s e h =
    elim (Bool-cases (not s.has_aes_key || ltb (length payload) 28)) [
      | inl refused ↦ absurd (cc (rw refused at h))
      | inr tried ↦ elim (Result-cases (make_cipher b s.aes_key 32)) [
        | inl (cipher, made) ↦ absurd (cc (rw (tried, made) at h))
        | inr (x, unavailable) ↦ unavailable ∙ ap err (err_injective (rw (tried, unavailable) at h))
      ]
    ]

module _ (env : Env) (d : Dispatcher) (c : Connection) where
  -- The context in which the inner command's handler and authenticator run.
  abbrev pub inner_context : DecryptedMessage → Io → Context
  inner_context msg io = record {
    header = record {
      command_id = msg.inner_cmd;
      flags = 0;
      payload_length = u32 (length msg.inner_payload);
      session_id = io.session.id;
    };
    payload = msg.inner_payload;
    session = io.session;
    transport = transport_type c;
    locals = io.locals;
  }

  route_without_permission :
      (msg : DecryptedMessage) (ep : Endpoint) (io : Io)
      → Allowed d.authenticate ep (inner_context msg io)
        ⊎ ((route_found env d c msg (some ep) io).1
            ≡ checked env c d.authenticate ep (inner_context msg io) io)
  unfolding route_found refreshed
  route_without_permission msg ep io =
      let state = permitted_state env c d.authenticate ep (inner_context msg io) io in
      elim (Result-cases (permitted env c d.authenticate ep (inner_context msg io) io).0) [
        | inr (e, failed) ↦ inr (rw failed state)
        | inl (true, passed) ↦
            inl (permitted_sound env c d.authenticate ep (inner_context msg io) io passed)
        | inl (false, refused) ↦ inr (rw refused state)
      ]

  -- What became of an authentic message: its command is registered and allowed; or it is unknown
  -- and nothing happened; or it is refused, and what is left is what the authenticator did.
  abbrev pub Routed : ClientFrame → Io → DecryptedMessage → Type 0
  Routed frame io msg =
      ((ep : Endpoint) × (get d.router msg.inner_cmd ≡ some ep)
        × Allowed d.authenticate ep (inner_context msg io))
      ⊎ (((get d.router msg.inner_cmd ≡ none)
            × (handle_encrypted_message env d c frame io ≡ (ok tt, io)))
          ⊎ ((ep : Endpoint) × (get d.router msg.inner_cmd ≡ some ep)
              × ((handle_encrypted_message env d c frame io).1
                  ≡ checked env c d.authenticate ep (inner_context msg io) io)))

  routed :
      (frame : ClientFrame) (io : Io) (msg : DecryptedMessage)
      → do_decrypt env.botan frame.payload io.session ≡ ok (some msg)
      → Routed frame io msg
  unfolding handle_encrypted_message route_decrypted do_route_and_send route_found
  routed frame io msg accepted = elim (Option-cases (get d.router msg.inner_cmd)) [
    | inl unknown ↦ inr (inl (unknown, rw (accepted, unknown)))
    | inr (ep, found) ↦ elim (route_without_permission msg ep io) [
      | inl allowed ↦ inl (ep, found, allowed)
      | inr left ↦ inr (inr (ep, found, rw (accepted, found) left))
    ]
  ]

  -- An encrypted message is rejected, or else authentic under the session's key. A rejected one
  -- changes nothing; it is no error, and the client stays connected, except where no cipher can be
  -- made. An authentic one of an unknown inner command does nothing; one whose requirements the
  -- session or the transport does not meet leaves what the authenticator did, if its endpoint wants
  -- authentication, and nothing at all, if it does not.
  pub handle_encrypted_message_guarded :
      (frame : ClientFrame) (io : Io)
      → ((msg : DecryptedMessage) × Authentic env.botan frame.payload io.session msg
          × Routed frame io msg)
        ⊎ (((do_decrypt env.botan frame.payload io.session ≡ ok none)
              × (handle_encrypted_message env d c frame io ≡ (ok tt, io)))
            ⊎ ((e : Error) × (make_cipher env.botan io.session.aes_key 32 ≡ err e)
                × (handle_encrypted_message env d c frame io ≡ (err e, io))))
  unfolding handle_encrypted_message route_decrypted
  handle_encrypted_message_guarded frame io =
      elim (Result-cases (do_decrypt env.botan frame.payload io.session)) [
        | inr (e, failed) ↦
            inr (inr (e, do_decrypt_fails env.botan frame.payload io.session e failed, rw failed))
        | inl (none, refused) ↦ inr (inl (refused, rw refused))
        | inl (some msg, accepted) ↦ inl (
          msg,
          do_decrypt-Authentic env.botan frame.payload io.session msg accepted,
          routed frame io msg accepted,
        )
      ]
