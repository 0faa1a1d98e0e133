-- ===== src/Engine/Accounting.antt =====
-- The connection count over whole histories of src/UringEngine/ClientHandlers.cpp.
use servd.Base.{
  ℕ, suc, ◌≡◌, sym, ap, ◌∙◌, subst, Bool, Option, none, some, List, ◌∷◌, ◌++◌, arith, length,
  length-append,
}
use servd.Result.{Result, ok}
use servd.Protocol.{ClientFrame}
use servd.Session.{ISessionStore}
use servd.Exec.{Env}
use servd.Access.{Dispatcher}
use servd.Engine.{
  Engine, Client, accept_client, leave_session, finish_client, finish_text_client, notify,
  serve_frame,
}
use servd.Engine.Table.{serve_frame_limits}
use servd.Engine.Count.{
  System, admit, admitted, Step, connects, serves, leaves, text_leaves, Reach, here, next,
  IsAccounted, accept_client-IsAccounted, release_client-IsAccounted, leave_session-IsAccounted,
}

abbrev pub Accounts : {State : Type 0} → System State → Type 0
Accounts s = IsAccounted s.engine (length s.clients)

-- The notification of a disconnect never throws.
abbrev pub Completes : Option (ℕ → Result (Unit {0})) → Bool → Type 0
Completes handler pool = (sid : ℕ) → notify handler pool sid ≡ ok tt

length-middle :
    (before after : List Client) (c : Client)
    → length (before ++ (c ∷ after)) ≡ suc (length (before ++ after))
length-middle before after c =
    omega (arith, length-append before (c ∷ after), length-append before after)

admit-Accounts :
    {State : Type 0} (clients : List Client) (r : Engine State × Option Client)
    → IsAccounted r.0 (admitted r.0 (length clients) r.1)
    → Accounts (admit clients r)
admit-Accounts clients (e, none) v = v
admit-Accounts clients (e, some c) v = v

finish_text_client-IsAccounted :
    {State : Type 0} (e : Engine State) (c : Client) (n : ℕ)
    → IsAccounted e (suc n)
    → IsAccounted (finish_text_client e c) n
unfolding finish_text_client
finish_text_client-IsAccounted e c n v =
    release_client-IsAccounted (leave_session e c.current_sid) n c.fd
      (leave_session-IsAccounted e (suc n) c.current_sid v)

finish_client-IsAccounted :
    {State : Type 0} (handler : Option (ℕ → Result (Unit {0}))) (pool : Bool) (e : Engine State)
    (c : Client) (n : ℕ)
    → Completes handler pool
    → IsAccounted e (suc n)
    → IsAccounted (finish_client handler pool e c) n
unfolding finish_client
finish_client-IsAccounted handler pool e c n completes v = rw (completes c.current_sid) (
    release_client-IsAccounted (leave_session e c.current_sid) n c.fd
      (leave_session-IsAccounted e (suc n) c.current_sid v))

module _ (stores : ISessionStore) (env : Env) (d : Dispatcher)
    (handler : Option (ℕ → Result (Unit {0}))) (pool : Bool)
    (completes : Completes handler pool) where
  serve_frame-IsAccounted :
      (e : Engine stores.State) (c : Client) (frame : ClientFrame) (n : ℕ)
      → IsAccounted e n
      → IsAccounted (serve_frame stores env d e c frame).1 n
  serve_frame-IsAccounted e c frame n v =
      let (active, limit, respond) = serve_frame_limits stores env d e c frame in
      record {
        counted = active ∙ v.counted;
        capped = rw (active, limit) v.capped;
        silent_if_full = rw (active, limit, respond) v.silent_if_full;
      }

  Step-Accounts :
      {s t : System stores.State} → Step stores env d handler pool s t → Accounts s → Accounts t
  Step-Accounts {s} (connects fd mode e) v = subst Accounts (sym e) (
      admit-Accounts s.clients (accept_client s.engine fd mode)
        (accept_client-IsAccounted s.engine (length s.clients) fd mode v))
  Step-Accounts {s} (serves before after c frame there e) v =
      let same = length-middle before after c ∙ sym (length-middle before after _) in
      subst Accounts (sym e) (
        subst (IsAccounted _) same (
          serve_frame-IsAccounted s.engine c frame (length (before ++ (c ∷ after)))
            (subst (λ (cs : List Client). IsAccounted s.engine (length cs)) there v)))
  Step-Accounts {s} (leaves before after c there e) v = subst Accounts (sym e) (
      finish_client-IsAccounted handler pool s.engine c (length (before ++ after)) completes
        (subst (IsAccounted s.engine) (ap length there ∙ length-middle before after c) v))
  Step-Accounts {s} (text_leaves before after c there e) v = subst Accounts (sym e) (
      finish_text_client-IsAccounted s.engine c (length (before ++ after))
        (subst (IsAccounted s.engine) (ap length there ∙ length-middle before after c) v))

  -- Three things that hold at the start hold in every history of accepts, frames and departures, in
  -- any order: the connection count is the number of clients, it does not pass a limit that is set,
  -- and a server that does not answer discovery is full. A server that is configured not to answer,
  -- with room for clients, does not start so. The notification of disconnects, if there is one, has
  -- to return.
  pub Reach-Accounts :
      {s t : System stores.State} → Accounts s → Reach stores env d handler pool s t → Accounts t
  Reach-Accounts v here = v
  Reach-Accounts v (next r step) = Step-Accounts step (Reach-Accounts v r)
