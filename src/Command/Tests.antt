-- ===== src/Command/Tests.antt =====
-- Runs of src/UringEngine/CommandRoute.cpp, and instances of the theorems about it.
use servd.Base.{ℕ, ◌≡◌, refl, ◌⊎◌, true, none, some, List, [], ◌∷◌, length, replicate}
use servd.Result.{ok}
use servd.Protocol.{ClientFrame}
use servd.Router.{Endpoint, get}
use servd.Crypto.{public_key, generate_private, shared_secret}
use servd.Crypto.Toy.{toy-IsBotan}
use servd.Connection.{tcp_connection, udp_connection, peer_of, frame_bytes}
use servd.Connection.Wire.{after_write}
use servd.Context.{Handler, IAuthenticator, authenticate_as, set_local}
use servd.Protocol.{tcp}
use servd.Exec.{Io}
use servd.Access.{Dispatcher}
use servd.Access.Guard.{Allowed, checked}
use servd.Command.{handle_normal_command, handle_key_exchange}
use servd.Command.Guard.{context_of, handle_normal_command_guarded}
use servd.Command.Exchange.{keyed, exchange_header, handle_key_exchange_agrees}
use servd.Fixtures.{env, env_sends, idle, ping}

-- The application's own check: the password in the payload authenticates the session and leaves a
-- role in the bag. Every command wants it, over TCP, and answers with the name of the user.
abbrev my_auth : IAuthenticator
my_auth ctx =
    (authenticate_as true (97 ∷ []) ∷ set_local (114 ∷ []) (115 ∷ []) (97 ∷ []) ∷ [], ok true)

abbrev greet : Handler
greet ctx = ([], ok (record { flags = 0; payload = ctx.session.user_identifier }))

abbrev greet_endpoint : Endpoint
greet_endpoint = record { handler = some greet; requires_auth = true; allowed_transport = tcp }

abbrev greeting : Dispatcher
greeting = record { router = record { routes = λ k. greet_endpoint }; authenticate = my_auth }

-- Over UDP the command is refused, and the session is authenticated all the same.
handle_normal_command_guarded_example :
    ((ep : Endpoint) × (get greeting.router 1 ≡ some ep)
      × Allowed my_auth ep (context_of ping (udp_connection 3 1) idle))
    ⊎ (((get greeting.router 1 ≡ none)
          × (handle_normal_command env greeting ping (udp_connection 3 1) idle ≡ (ok tt, idle)))
        ⊎ ((ep : Endpoint) × (get greeting.router 1 ≡ some ep)
            × ((handle_normal_command env greeting ping (udp_connection 3 1) idle).1
                ≡ checked env
                    (udp_connection 3 1)
                    my_auth
                    ep
                    (context_of ping (udp_connection 3 1) idle)
                    idle)))
handle_normal_command_guarded_example =
    handle_normal_command_guarded env greeting ping (udp_connection 3 1) idle

-- What the authenticator leaves of `idle`.
abbrev behind : Io
behind =
    checked env (tcp_connection 4) my_auth greet_endpoint (context_of ping (tcp_connection 4) idle)
      idle

abbrev client_priv : List ℕ
client_priv = replicate 32 3

abbrev hello : ClientFrame
hello = record {
  header = record { command_id = 0xf0; flags = 0; payload_length = 32; session_id = 5 };
  payload = public_key env.botan client_priv;
}

handle_key_exchange_agrees_example :
    let server_pub = public_key env.botan (generate_private env.botan 0) in
    (s : List ℕ) × (length s ≡ 32)
    × (shared_secret env.botan client_priv server_pub ≡ ok s)
    × (handle_key_exchange env hello (tcp_connection 4) idle ≡ (
      ok tt,
      after_write
          (keyed idle s)
          (peer_of (tcp_connection 4))
          (frame_bytes (tcp_connection 4) (exchange_header idle) server_pub),
    ))
handle_key_exchange_agrees_example =
    handle_key_exchange_agrees env hello (tcp_connection 4) idle client_priv toy-IsBotan env_sends
      refl refl
