-- ===== src/Engine/Tests.antt =====
-- Instances of the theorems about src/UringEngine/ClientHandlers.cpp.
use servd.Base.{ℕ, ◌≡◌, refl, true, false, none, some, [], ◌∷◌, arith, replicate, Map, lookup}
use servd.Protocol.{binary, text, any, ResponseFrame}
use servd.Session.{Session}
use servd.Session.InMemory.{in_memory}
use servd.Engine.{Engine, Client, switch_session, serve_frame, accept_client, notify, connection_of}
use servd.Engine.Secure.{Secured, secure_session}
use servd.Engine.Table.{lookup-switch_session, serve_frame_table}
use servd.Engine.Count.{System, connects, Reach, here, next, admit}
use servd.Engine.Accounting.{Accounts, Reach-Accounts}
use servd.Context.{Context}
use servd.Router.{Endpoint, get, is_valid}
use servd.Access.{Dispatcher}
use servd.Connection.{text_connection}
use servd.Crypto.Toy.{toy-IsBotan}
use servd.Session.InMemory.{IsKeyed-nil}
use servd.Fixtures.{env, env_sends, env_fills, dispatcher, ping, echo}

abbrev empty_engine : Engine (Map Session)
empty_engine = record {
  sessions = [];
  active_connections = 0;
  max_clients = 2;
  respond_to_clients = true;
  discovery_enabled = true;
  store = some [];
  closed = [];
  wrote = [];
  draws = 0;
}

abbrev on_session : ℕ → ℕ → Client
on_session fd sid = record { fd = fd; mode = text; current_sid = sid }

lookup-switch_session_example : lookup 5 (switch_session 3 5 4 ((3, 4) ∷ [])) ≡ some 4
lookup-switch_session_example = lookup-switch_session 5 3 5 4 ((3, 4) ∷ [])

serve_frame_table_example :
    let after = serve_frame in_memory env dispatcher empty_engine (on_session 4 3) ping in
    (after.1.sessions ≡ switch_session 3 5 4 [])
    × (after.1.active_connections ≡ 0)
    × (after.2.current_sid ≡ 5)
    × (after.2.fd ≡ 4)
serve_frame_table_example =
    serve_frame_table in_memory env dispatcher empty_engine (on_session 4 3) ping [] refl

abbrev nobody : System (Map Session)
nobody = record { engine = empty_engine; clients = [] }

abbrev one_client : System (Map Session)
one_client = admit [] (accept_client empty_engine 4 binary)

-- One client connects.
abbrev connected : Reach in_memory env dispatcher none false nobody one_client
connected = next here (connects 4 binary refl)

Reach-Accounts_example : Accounts one_client
unfolding notify
Reach-Accounts_example =
    Reach-Accounts in_memory env dispatcher none false (λ sid. refl) {s = nobody} {t = one_client}
      (record { counted = refl; capped = λ h. omega arith; silent_if_full = λ h. cc }) connected

abbrev quiet : Engine (Map Session)
quiet = record empty_engine {
  respond_to_clients = false;
  discovery_enabled = false;
  active_connections = 1;
}

-- A command that everybody may use.
abbrev open_endpoint : Endpoint
open_endpoint = record { handler = some echo; requires_auth = false; allowed_transport = any }

abbrev open_dispatcher : Dispatcher
open_dispatcher = record dispatcher { router = record { routes = λ k. open_endpoint } }

abbrev echoed : Context → ResponseFrame
echoed ctx = record { flags = 0; payload = ctx.payload }

secure_session_example :
    Secured env open_dispatcher
      (text_connection 4)
      echoed
      in_memory
      empty_engine
      (on_session 4 3)
      5
      (replicate 32 3)
      (replicate 12 1)
      7
      (8 ∷ 9 ∷ [])
unfolding get is_valid
secure_session_example =
    secure_session env open_dispatcher (text_connection 4) toy-IsBotan env_sends env_fills
      open_endpoint echo echoed refl refl refl (λ ctx. refl) in_memory empty_engine (on_session 4 3)
      [] 5 (replicate 32 3) (replicate 12 1) 7 (8 ∷ 9 ∷ []) (unfold connection_of in refl) refl
      IsKeyed-nil refl refl (omega arith) refl
