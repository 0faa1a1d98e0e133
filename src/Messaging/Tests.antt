-- ===== src/Messaging/Tests.antt =====
-- Instances of the theorems about src/UringEngine/SessionBroadcast.cpp.
use servd.Base.{ℕ, ◌≡◌, refl, pos, negsuc, Map, some, [], ◌∷◌, ◌++◌, map, arith, ltb, if◌then◌else◌}
use servd.Result.{ok, err, system_error}
use servd.Session.InMemory.{in_memory}
use servd.Exec.{Env, to_fd}
use servd.Connection.{await_resume}
use servd.Engine.{switch_session}
use servd.Messaging.{do_broadcast, do_broadcast_if, send_to_session}
use servd.Messaging.Addressed.{send_to_session-switch_session}
use servd.Messaging.Delivery.{delivery, chosen, do_broadcast_stops, do_broadcast_if_delivers}
use servd.Fixtures.{env, env_sends}

abbrev two_sessions : Map ℕ
two_sessions = (5, 4) ∷ (6, 7) ∷ []

-- The second write of all meets a broken pipe.
abbrev broken : Env
broken = record env { send_result = λ k n. if ltb k 1 then pos n else negsuc 31 }

do_broadcast_stops_example :
    do_broadcast broken 9 (1 ∷ []) (((5, 4) ∷ []) ++ ((6, 7) ∷ (8, 9) ∷ [])) [] ≡ (
      err (system_error 32),
      (delivery 9 (1 ∷ []) (5, 4) ∷ []) ++ (record { peer = to_fd 7; accepted = [] } ∷ []),
    )
unfolding await_resume
do_broadcast_stops_example =
    do_broadcast_stops broken 9 (1 ∷ []) ((5, 4) ∷ []) ((8, 9) ∷ []) 6 7 [] (system_error 32)
      (λ k n h. ground arith) (λ n. refl)

do_broadcast_if_delivers_example :
    let (result, store', wrote') =
      do_broadcast_if env 9 (1 ∷ []) in_memory (λ s. s.authenticated) two_sessions (some []) [] in
    (result ≡ ok tt)
    × (wrote'
        ≡ map
            (delivery 9 (1 ∷ []))
            (chosen env 9 (1 ∷ []) in_memory (λ s. s.authenticated) [] two_sessions))
do_broadcast_if_delivers_example =
    do_broadcast_if_delivers env 9 (1 ∷ []) in_memory (λ s. s.authenticated) two_sessions [] []
      env_sends

send_to_session-switch_session_example :
    let moved = switch_session 5 8 4 two_sessions in
    (send_to_session env 9 (1 ∷ []) moved 8 [] ≡ (ok tt, [] ++ (delivery 9 (1 ∷ []) (8, 4) ∷ [])))
    × (send_to_session env 9 (1 ∷ []) moved 5 [] ≡ (ok tt, []))
send_to_session-switch_session_example =
    send_to_session-switch_session env 9 (1 ∷ []) 5 8 4 two_sessions [] env_sends (λ h. omega arith)
      (λ h. omega arith)
