-- ===== src/App/Tests.antt =====
-- Instances of the theorems about src/app/main.cpp.
use servd.Base.{refl, true, some, [], ◌∷◌, arith, Map}
use servd.Protocol.{text}
use servd.Session.{Session}
use servd.Session.InMemory.{in_memory, IsKeyed-nil}
use servd.Engine.{Engine, Client, no_session}
use servd.App.Alerts.{LoggedIn, login_then_alert}
use servd.Fixtures.{env, env_sends}

abbrev engine : Engine (Map Session)
engine = record {
  sessions = (9, 6) ∷ [];
  active_connections = 2;
  max_clients = 0;
  respond_to_clients = true;
  discovery_enabled = true;
  store = some [];
  closed = [];
  wrote = [];
  draws = 0;
}

abbrev client : Client
client = record { fd = 4; mode = text; current_sid = no_session }

login_then_alert_example : LoggedIn env in_memory engine client 5 0 0 []
login_then_alert_example =
    login_then_alert env env_sends in_memory engine client [] 5 0 0 [] refl IsKeyed-nil
      (λ h. omega arith)
