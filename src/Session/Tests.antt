-- ===== src/Session/Tests.antt =====
-- Runs of the in-memory session store, and an instance of its refinement theorem.
use servd.Base.{◌≡◌, refl, true, [], ◌∷◌, lookup, insert}
use servd.Session.{Session, make_session, set_authenticated}
use servd.Session.InMemory.{get_or_create, save, IsKeyed-nil, InMemory-refines}

abbrev admin : Session
unfolding make_session set_authenticated
admin = set_authenticated (make_session 7) true (97 ∷ [])

save_then_get : (get_or_create (save [] admin) 7).0 ≡ admin
unfolding get_or_create save lookup insert admin
save_then_get = refl

InMemory-refines_example : (get_or_create (save [] admin) 7).0.id ≡ 7
InMemory-refines_example =
    ((InMemory-refines (save [] admin) ((InMemory-refines [] IsKeyed-nil).1 admin).0).0 7).1
