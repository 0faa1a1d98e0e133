-- ===== src/Command/Reply.antt =====
-- A permitted command that succeeds: src/UringEngine/CommandRoute.cpp.
use servd.Base.{◌≡◌, refl, some, List, [], length, sym, append-nil}
use servd.Result.{ok}
use servd.Protocol.{ClientFrame, FrameHeader, ResponseFrame}
use servd.Context.{Context, Action, Handler}
use servd.Router.{Endpoint, get}
use servd.Exec.{Env, SendsAll, Io}
use servd.Connection.{Connection, peer_of, frame_bytes, u32}
use servd.Connection.Wire.{after_write, send_frame_whole}
use servd.Access.{Dispatcher, perform_all, refreshed, call_handler}
use servd.Access.Guard.{Allowed, checked, perform_all_ok, permitted_complete}
use servd.Command.{handle_normal_command}
use servd.Access.Keeping.{perform_all-Keeps}
use servd.Command.Confined.{Confined-IsClosed}
use servd.Command.Guard.{context_of}

-- `io` after a handler's actions.
abbrev pub acted : Env → Connection → List Action → Io → Io
acted env c actions io = (perform_all env c actions io).1

pub id-acted :
    (env : Env) (c : Connection) (actions : List Action) (io : Io)
    → (acted env c actions io).session.id ≡ io.session.id
id-acted env c actions io =
    ((perform_all-Keeps env c (Confined-IsClosed io) actions).at io
      (refl, ([], sym (append-nil io.wrote)))).0

pub call_handler_ok :
    (env : Env) (c : Connection) (ep : Endpoint) (handler : Handler) (ctx : Context) (io : Io)
    (actions : List Action) (response : ResponseFrame)
    → SendsAll env
    → ep.handler ≡ some handler
    → handler ctx ≡ (actions, ok response)
    → call_handler env c ep ctx io ≡ (ok response, acted env c actions io)
unfolding call_handler
call_handler_ok env c ep handler ctx io actions response whole there answers =
    rw (there, answers, perform_all_ok env c actions io whole)

-- The header of the answer to a frame.
abbrev pub reply_header : ClientFrame → Io → ResponseFrame → FrameHeader
reply_header frame io response = record {
  command_id = frame.header.command_id;
  flags = response.flags;
  payload_length = u32 (length response.payload);
  session_id = io.session.id;
}

pub handle_normal_command_replies :
    (env : Env) (d : Dispatcher) (frame : ClientFrame) (c : Connection) (io : Io) (ep : Endpoint)
    (handler : Handler) (actions : List Action) (response : ResponseFrame)
    → SendsAll env
    → get d.router frame.header.command_id ≡ some ep
    → Allowed d.authenticate ep (context_of frame c io)
    → ep.handler ≡ some handler
    → let behind = checked env c d.authenticate ep (context_of frame c io) io in
      handler (context_of frame c behind) ≡ (actions, ok response)
      → handle_normal_command env d frame c io ≡ (
        ok tt,
        after_write
            (acted env c actions behind)
            (peer_of c)
            (frame_bytes c (reply_header frame behind response) response.payload),
      )
unfolding handle_normal_command refreshed
handle_normal_command_replies env d frame c io ep handler actions response whole found allowed there
      answers =
    let behind = checked env c d.authenticate ep (context_of frame c io) io in
    rw
      (
        found,
        permitted_complete env c d.authenticate ep (context_of frame c io) io whole allowed,
        call_handler_ok env c ep handler (context_of frame c behind) behind actions response whole
            there answers,
        id-acted env c actions behind,
      )
      (send_frame_whole env c (reply_header frame behind response) response.payload
        (acted env c actions behind) whole)
