-- ===== src/Command/Confined.antt =====
-- What handlers and authenticators keep, as CommandRoute.cpp and EncryptedHandler.cpp of
-- src/UringEngine run them.
use servd.Base.{◌≡◌, [], ◌∷◌, ◌++◌, append_assoc}
use servd.Session.{set_authenticated, set_aes_key}
use servd.Exec.{Io}
use servd.Access.Keeping.{IsClosed}
use servd.Access.Messages.{Continues}

-- `after` has the session id of `before`, and continues its log.
abbrev pub Confined : Io → Io → Type 0
Confined before after = (after.session.id ≡ before.session.id) × Continues before.wrote after.wrote

pub Confined-IsClosed : (before : Io) → IsClosed (Confined before)
unfolding set_authenticated set_aes_key
Confined-IsClosed before = record {
  on_authenticate = λ io state user h. h;
  on_key = λ io key h. h;
  on_draw = λ io h. h;
  on_local = λ io locals h. h;
  on_write =
      λ io w h. (h.0, (h.1.0 ++ (w ∷ []), rw h.1.1 (append_assoc before.wrote h.1.0 (w ∷ []))));
}
