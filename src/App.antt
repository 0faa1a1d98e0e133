-- ===== src/App.antt =====
-- src/app/main.cpp: a server with two commands and a periodic alert.
pub mod Alerts
mod Tests
use Prim.Native.Char.{code}
use Prim.Native.String
use Prim.Native.String.{String}
use servd.Base.{ℕ, Bool, true, Option, some, List, [], ◌∷◌, ◌++◌, decimal, Map}
use servd.Result.{Result, ok}
use servd.Protocol.{TransportType, any, tcp, udp, unix, binary}
use servd.Session.{Session, ISessionStore}
use servd.Context.{Handler, authenticate_as, default_authenticate}
use servd.Router.{Router, tcp_only, modify, add, empty_router}
use servd.Exec.{Env, Write}
use servd.Access.{Dispatcher}
use servd.Messaging.{do_broadcast_if}
use servd.Config.{ServerConfig, enable_tcp, enable_udp, enable_unix_socket}

-- The bytes of an ASCII text.
abbrev pub codes : String → List ℕ
codes String.[] = []
codes (String.◌∷◌ c s) = code c ∷ codes s

abbrev pub cmd_ping : ℕ
cmd_ping = 0x01

abbrev pub cmd_login : ℕ
cmd_login = 0x02

abbrev pub cmd_sys_alert : ℕ
cmd_sys_alert = 0x99

-- (int) of a TransportType
unfoldable pub transport_id : TransportType → ℕ
transport_id any = 0
transport_id tcp = 1
transport_id udp = 2
transport_id unix = 3

unfoldable pub ping : Handler
unfolding transport_id
ping ctx = (
  [],
  ok (record {
    flags = 0;
    payload = codes "PONG! From transport ID " ++ decimal (transport_id ctx.transport);
  }),
)

unfoldable pub login : Handler
login ctx =
    (authenticate_as true (codes "SuperAdmin") ∷ [], ok (record { flags = 0; payload = [] }))

unfoldable pub listeners : ServerConfig → ServerConfig
listeners s =
    enable_unix_socket (enable_udp (enable_tcp s 8080 binary) 8081) (codes "/tmp/servd_test.sock")
      binary

-- The commands that main registers, with the restriction of the second.
unfoldable pub commands : Router
unfolding modify add
commands =
    modify (add (add empty_router cmd_ping (some ping)) cmd_login (some login)) cmd_login tcp_only

-- The server of main; init gives it the default authenticator.
unfoldable pub app : Dispatcher
app = record { router = commands; authenticate = default_authenticate }

abbrev pub alert : List ℕ
alert = codes "System alert: All is well!"

unfoldable pub is_authenticated : Session → Bool
is_authenticated s = s.authenticated

-- The periodic task, every 10 seconds.
unfoldable pub sys_alert :
    (env : Env) (stores : ISessionStore)
    → Map ℕ
    → Option stores.State
    → List Write
    → Result (Unit {0}) × Option stores.State × List Write
sys_alert env stores sessions store wrote =
    do_broadcast_if env cmd_sys_alert alert stores is_authenticated sessions store wrote
