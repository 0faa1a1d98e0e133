-- ===== src/Fixtures.antt =====
-- Concrete values that the tests of the other modules share.
use servd.Base.{
  zero, suc, ℕ, refl, true, false, pos, none, some, List, [], ◌∷◌, replicate, length-replicate,
}
use servd.Result.{ok}
use servd.Protocol.{FrameHeader, ClientFrame, any}
use servd.Session.{Session, make_session}
use servd.Context.{Handler, default_authenticate}
use servd.Router.{Endpoint}
use servd.Crypto.Toy.{toy}
use servd.Exec.{Env, SendsAll, FillsRandom, Io}
use servd.Access.{Dispatcher}

abbrev pub env : Env
env = record { botan = toy; random = λ k n. replicate n 7; send_result = λ k n. pos n }

pub env_sends : SendsAll env
env_sends k n = refl

pub env_fills : FillsRandom env
env_fills k n = length-replicate n 7

abbrev pub echo : Handler
echo ctx = ([], ok (record { flags = 0; payload = ctx.payload }))

abbrev pub echo_endpoint : Endpoint
echo_endpoint = record { handler = some echo; requires_auth = true; allowed_transport = any }

-- Command 1 echoes to authenticated sessions, and every other command is unknown.
abbrev pub one_route : ℕ → Endpoint
one_route (suc zero) = echo_endpoint
one_route _ = record { handler = none; requires_auth = false; allowed_transport = any }

abbrev pub dispatcher : Dispatcher
dispatcher = record { router = record { routes = one_route }; authenticate = default_authenticate }

abbrev pub key : List ℕ
key = replicate 32 9

abbrev pub admin : Session
admin = record {
  id = 5;
  authenticated = true;
  has_aes_key = true;
  aes_key = key;
  user_identifier = 97 ∷ [];
}

abbrev pub idle : Io
idle = record {
  session = admin;
  locals = [];
  wrote = [];
  draws = 0;
  sessions = [];
  stored = make_session;
}

abbrev pub ping_header : FrameHeader
ping_header = record { command_id = 1; flags = 0; payload_length = 2; session_id = 5 }

abbrev pub ping : ClientFrame
ping = record { header = ping_header; payload = 8 ∷ 9 ∷ [] }
