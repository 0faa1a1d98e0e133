-- ===== src/Engine/Count.antt =====
-- The connection count and the client limit: start_accept_loop and the ends of handle_client and
-- text_handle_client in src/UringEngine/ClientHandlers.cpp.
use servd.Base.{ℕ, suc, ◌≤◌, ◌<◌, ◌≡◌, Bool, false, Option, none, some, List, ◌∷◌, ◌++◌, arith}
use servd.Result.{Result}
use servd.Protocol.{ProtocolMode, ClientFrame}
use servd.Session.{ISessionStore}
use servd.Exec.{Env}
use servd.Access.{Dispatcher}
use servd.Engine.{
  Engine, Client, accept_client, release_client, leave_session, finish_client, finish_text_client,
  serve_frame,
}

-- The engine and the clients whose coroutines run.
pub record System (State : Type 0) : Type 0 where
  pub engine : Engine State
  pub clients : List Client

abbrev pub admit : {State : Type 0} → List Client → Engine State × Option Client → System State
admit clients (e, none) = record { engine = e; clients = clients }
admit clients (e, some c) = record { engine = e; clients = c ∷ clients }

-- What can happen next: a connection is accepted, one of the clients is served a frame, or one
-- leaves. The clients and the frames are the environment's choice.
module _ (stores : ISessionStore) (env : Env) (d : Dispatcher)
    (handler : Option (ℕ → Result (Unit {0}))) (pool : Bool) where
  pub data Step (s t : System stores.State) : Type 0 where
    connects :
        (fd : ℕ) (mode : ProtocolMode)
        → t ≡ admit s.clients (accept_client s.engine fd mode)
        → Step s t
    serves :
        (before after : List Client) (c : Client) (frame : ClientFrame)
        → s.clients ≡ before ++ (c ∷ after)
        → t ≡ record {
          engine = (serve_frame stores env d s.engine c frame).1;
          clients = before ++ ((serve_frame stores env d s.engine c frame).2 ∷ after);
        }
        → Step s t
    leaves :
        (before after : List Client) (c : Client)
        → s.clients ≡ before ++ (c ∷ after)
        → t ≡ record { engine = finish_client handler pool s.engine c; clients = before ++ after }
        → Step s t
    text_leaves :
        (before after : List Client) (c : Client)
        → s.clients ≡ before ++ (c ∷ after)
        → t ≡ record { engine = finish_text_client s.engine c; clients = before ++ after }
        → Step s t

  pub data Reach (s : System stores.State) : System stores.State → Type 0 where
    here : Reach s s
    next : {t u : System stores.State} → Reach s t → Step t u → Reach s u

-- The count is the number of clients, the limit holds, and a server that does not answer discovery
-- is full.
pub record IsAccounted {State : Type 0} (e : Engine State) (n : ℕ) : Type 0 where
  pub counted : e.active_connections ≡ n
  pub capped : 0 < e.max_clients → e.active_connections ≤ e.max_clients
  pub silent_if_full :
      e.respond_to_clients ≡ false → (0 < e.max_clients) × (e.max_clients ≤ e.active_connections)

module _ {State : Type 0} (e : Engine State) where
  abbrev pub admitted : ℕ → Option Client → ℕ
  admitted n none = n
  admitted n (some c) = suc n

  pub accept_client-IsAccounted :
      (n : ℕ) (fd : ℕ) (mode : ProtocolMode)
      → IsAccounted e n
      → IsAccounted (accept_client e fd mode).0 (admitted n (accept_client e fd mode).1)
  unfolding accept_client
  accept_client-IsAccounted n fd mode v = ground (arith, v.capped, v.silent_if_full)

  pub release_client-IsAccounted :
      (n : ℕ) (fd : ℕ) → IsAccounted e (suc n) → IsAccounted (release_client e fd) n
  unfolding release_client
  release_client-IsAccounted n fd v = ground (arith, v.capped, v.silent_if_full)

  pub leave_session-IsAccounted :
      (n : ℕ) (sid : ℕ) → IsAccounted e n → IsAccounted (leave_session e sid) n
  unfolding leave_session
  leave_session-IsAccounted n sid v = ground (arith, v.capped, v.silent_if_full)
