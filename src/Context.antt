-- ===== src/Context.antt =====
-- include/servd/Context.hpp, the handler type of include/servd/router/Endpoint.hpp, and
-- include/servd/auth/DefaultAuthenticator.hpp behind include/servd/interfaces/IAuthenticator.hpp.
-- A handler and an authenticator are code of the application: parameters that read their context and
-- answer with the calls that they make on the context and the server, in order, and a result or an
-- exception. What else they do with the server, such as to change its limits, is not modelled.
pub mod Bag
use servd.Base.{
  ℕ, ◌≡◌, true, false, Bool, Bool-cases, inl, inr, List, [], text_eq, text_eq_refl, text_eq_sound,
}
use servd.Result.{Result, ok}
use servd.Protocol.{FrameHeader, TransportType, ResponseFrame}
use servd.Session.{Session}
use servd.Context.Bag.{AnyTypes, Locals}

pub same_text : (s t : List ℕ) → Dec (s ≡ t)
same_text s t = elim (Bool-cases (text_eq s t)) [
  | inl equal ↦ yes (text_eq_sound s t equal)
  | inr other ↦ no (λ e. cc (text_eq_refl s, e, other))
]

-- A value in the property bag of a request: its type by name, and its representation as bytes.
abbrev pub represented : AnyTypes
represented = record { TypeName = List ℕ; ValueOf = λ t. List ℕ; same_type = same_text }

-- `locals` is the property bag as the handler, or the authenticator, finds it.
pub record Context : Type 0 where
  pub header : FrameHeader
  pub payload : List ℕ
  pub session : Session
  pub transport : TransportType
  pub locals : Locals represented

-- ctx.session().set_authenticated, ctx.session().set_aes_key, ctx.push_event, ctx.set (with the key,
-- the type's name and the value), and send_to, broadcast and broadcast_if of the server.
pub data Action : Type 0 where
  authenticate_as : Bool → List ℕ → Action
  install_key : List ℕ → Action
  push_event : ℕ → List ℕ → Action
  set_local : List ℕ → List ℕ → List ℕ → Action
  sends_to : ℕ → ℕ → List ℕ → Action
  broadcasts : ℕ → List ℕ → Action
  broadcasts_if : ℕ → List ℕ → (Session → Bool) → Action

abbrev pub Handler : Type 0
Handler = Context → List Action × Result ResponseFrame

abbrev pub IAuthenticator : Type 0
IAuthenticator = Context → List Action × Result Bool

unfoldable pub default_authenticate : IAuthenticator
default_authenticate ctx = ([], ok ctx.session.authenticated)
