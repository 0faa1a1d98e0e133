-- ===== src/Encrypted/Tests.antt =====
-- Instances of the theorems about src/UringEngine/EncryptedHandler.cpp.
use servd.Base.{ℕ, ◌≡◌, refl, ◌⊎◌, none, some, List, [], ◌∷◌, replicate, arith}
use servd.Result.{Error, ok, err}
use servd.Crypto.{make_cipher}
use servd.Crypto.Toy.{toy, toy-IsBotan}
use servd.Connection.{tcp_connection}
use servd.Encrypted.{DecryptedMessage, do_decrypt, seal_message, handle_encrypted_message}
use servd.Encrypted.Channel.{do_decrypt-seal_message}
use servd.Encrypted.Trust.{Authentic, Routed, handle_encrypted_message_guarded}
use servd.Fixtures.{env, dispatcher, admin, idle, ping, key}

do_decrypt-seal_message_example :
    (out : List ℕ) × (seal_message toy key (replicate 12 1) 258 (4 ∷ 5 ∷ []) ≡ ok out)
    × (do_decrypt toy out admin
        ≡ ok (some (record { cipher = key; inner_cmd = 258; inner_payload = 4 ∷ 5 ∷ [] })))
do_decrypt-seal_message_example =
    do_decrypt-seal_message toy toy-IsBotan admin (replicate 12 1) 258 (4 ∷ 5 ∷ []) refl refl refl
      (omega arith)

handle_encrypted_message_guarded_example :
    ((msg : DecryptedMessage) × Authentic env.botan ping.payload idle.session msg
      × Routed env dispatcher (tcp_connection 4) ping idle msg)
    ⊎ (((do_decrypt env.botan ping.payload idle.session ≡ ok none)
          × (handle_encrypted_message env dispatcher (tcp_connection 4) ping idle ≡ (ok tt, idle)))
        ⊎ ((e : Error) × (make_cipher env.botan idle.session.aes_key 32 ≡ err e)
            × (handle_encrypted_message env dispatcher (tcp_connection 4) ping idle
                ≡ (err e, idle))))
handle_encrypted_message_guarded_example =
    handle_encrypted_message_guarded env dispatcher (tcp_connection 4) ping idle

abbrev message : DecryptedMessage
message = record { cipher = key; inner_cmd = 1; inner_payload = 6 ∷ [] }
