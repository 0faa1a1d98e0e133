-- ===== src/Lifecycle/Listeners.antt =====
-- What becomes of the sockets that Server::init opens: src/serveur/ServerLifecycle.cpp.
use servd.Base.{
  ℕ, suc, ◌≡◌, refl, sym, ap, ◌∙◌, Int-cases, Bool, true, false, Bool-cases, inl, inr, List, [],
  ◌∷◌, ◌++◌, append-nil, not, ◌||◌, ◌==◌, ltb, if◌then◌else◌,
}
use servd.Result.{ok, err, socket_failed, bind_failed, listen_failed}
use servd.Protocol.{ProtocolMode}
use servd.Lifecycle.{
  Address, tcp_address, udp_address, Kernel, Loop, accept_loop, udp_loop, discovery_loop,
  timer_loop, session_bus_loop, system_bus_loop, ServerMembers, Setup, Stage, pure, ◌>>=◌, ◌>>◌,
  start, init_defaults, unix_address_of, unlink, set_discovery_fd, init_periodic_tasks, init_dbus,
  init_announcement, open_socket, bind_to, listen_on, serve_tcp, init_tcp_sockets, serve_unix,
  init_unix_sockets, serve_udp, init_udp_sockets, serve_discovery, init_discovery, init_sockets,
  init,
}
use servd.Lifecycle.Stages.{
  served, all_served, addresses, discovery_addresses, configured, Listens, Serves, ServesLast,
  addresses-snoc, shift-Listens, then-Listens, then-Serves, pure-Serves, for_each-Serves,
  for_each-Serves_none, start-Serves, start-ServesLast, step-Listens,
}

module _ (kernel : Kernel) where
  -- A descriptor that was opened, and what is done with it.
  open_socket-Serves :
      (wanted : List Address) (m : ℕ → Stage (Unit {0}))
      → ((fd : ℕ) → ServesLast fd wanted (m fd))
      → Serves wanted (open_socket kernel >>= m)
  unfolding open_socket
  open_socket-Serves wanted m each s h = elim (Int-cases (kernel.socket s.socket_calls)) [
    | inl (fd, e) ↦
        step-Listens (open_socket kernel) m s
          (ok fd, record s { socket_calls = suc s.socket_calls; opened = s.opened ++ (fd ∷ []) })
          (rw (e, open_socket))
          (each fd (record s { socket_calls = suc s.socket_calls; opened = s.opened ++ (fd ∷ []) })
            (ap (λ xs. xs ++ (fd ∷ [])) h))
    | inr (n, e) ↦
        step-Listens (open_socket kernel) m s
          (err socket_failed, record s { socket_calls = suc s.socket_calls }) (rw (e, open_socket))
          (record {
            now = [];
            rest = wanted;
            left = [];
            in_order = refl;
            reached = sym (append-nil (addresses s.bound));
            kept = h ∙ sym (append-nil (all_served s.loops));
            ends = inl (refl, refl);
          })
  ]

  bind_to-ServesLast :
      (fd : ℕ) (addr : Address) (wanted : List Address) (m : Stage (Unit {0}))
      → ServesLast fd wanted m
      → ServesLast fd (addr ∷ wanted) (bind_to kernel fd addr >> m)
  unfolding bind_to
  bind_to-ServesLast fd addr wanted m serves s h = elim (Int-cases (kernel.bind fd addr)) [
    | inl (n, e) ↦
        step-Listens (bind_to kernel fd addr) (λ u. m) s
          (ok tt, record s { bound = s.bound ++ ((fd, addr) ∷ []) }) (rw (e, bind_to))
          (shift-Listens (addr ∷ []) (addresses-snoc s.bound fd addr)
            (serves (record s { bound = s.bound ++ ((fd, addr) ∷ []) }) h))
    | inr (n, e) ↦
        step-Listens (bind_to kernel fd addr) (λ u. m) s (err bind_failed, s) (rw (e, bind_to))
          (record {
            now = [];
            rest = addr ∷ wanted;
            left = fd ∷ [];
            in_order = refl;
            reached = sym (append-nil (addresses s.bound));
            kept = h;
            ends = inr (fd, refl);
          })
  ]

  listen_on-ServesLast :
      (fd : ℕ) (wanted : List Address) (m : Stage (Unit {0}))
      → ServesLast fd wanted m
      → ServesLast fd wanted (listen_on kernel fd >> m)
  unfolding listen_on
  listen_on-ServesLast fd wanted m serves s h = elim (Int-cases (kernel.listen fd)) [
    | inl (n, e) ↦
        step-Listens (listen_on kernel fd) (λ u. m) s (ok tt, s) (rw (e, listen_on)) (serves s h)
    | inr (n, e) ↦
        step-Listens (listen_on kernel fd) (λ u. m) s (err listen_failed, s) (rw (e, listen_on))
          (record {
            now = [];
            rest = wanted;
            left = fd ∷ [];
            in_order = refl;
            reached = sym (append-nil (addresses s.bound));
            kept = h;
            ends = inr (fd, refl);
          })
  ]

  accept-ServesLast :
      (fd : ℕ) (addr : Address) (mode : ProtocolMode)
      → ServesLast fd
          (addr ∷ [])
          (bind_to kernel fd addr >> (listen_on kernel fd >> start (accept_loop fd mode)))
  accept-ServesLast fd addr mode =
      bind_to-ServesLast fd addr [] (listen_on kernel fd >> start (accept_loop fd mode)) (
        listen_on-ServesLast fd [] (start (accept_loop fd mode))
          (start-ServesLast (accept_loop fd mode) fd refl))

  serve_tcp-Serves : (x : ℕ × ProtocolMode) → Serves (tcp_address x.0 ∷ []) (serve_tcp kernel x)
  unfolding serve_tcp
  serve_tcp-Serves (port, mode) =
      open_socket-Serves _ _ (λ fd. accept-ServesLast fd (tcp_address port) mode)

  serve_unix-Serves :
      (x : List ℕ × ProtocolMode) → Serves (unix_address_of x.0 ∷ []) (serve_unix kernel x)
  unfolding serve_unix unlink
  serve_unix-Serves (path, mode) =
      open_socket-Serves _ _
        (λ fd s h. accept-ServesLast fd (unix_address_of path) mode (unlink path s).1 h)

  serve_udp-Serves : (port : ℕ) → Serves (udp_address port ∷ []) (serve_udp kernel port)
  unfolding serve_udp
  serve_udp-Serves port = open_socket-Serves _ _ (λ fd.
      bind_to-ServesLast fd (udp_address port) [] (start (udp_loop fd))
        (start-ServesLast (udp_loop fd) fd refl))

  init_announcement-Serves : (m : ServerMembers) → Serves [] (init_announcement m)
  unfolding init_announcement
  init_announcement-Serves m = elim (Bool-cases (ltb 0 m.announce_seconds)) [
    | inl announces ↦ rw announces (start-Serves (timer_loop _) refl)
    | inr silent ↦ rw silent pure-Serves
  ]

  serve_discovery-Serves :
      (m : ServerMembers)
      → Serves (udp_address m.discovery_config.broadcast_port ∷ []) (serve_discovery kernel m)
  unfolding serve_discovery set_discovery_fd
  serve_discovery-Serves m = open_socket-Serves _ _ (λ fd.
      bind_to-ServesLast fd (udp_address m.discovery_config.broadcast_port) [] _ (λ s h.
        let t = (set_discovery_fd fd s).1 in
        then-Listens (init_announcement m) (start (discovery_loop fd) t).0
          (start (discovery_loop fd) t).1 (init_announcement-Serves m)
          (start-ServesLast (discovery_loop fd) fd refl t h)))

  init_discovery-Serves :
      (m : ServerMembers) → Serves (discovery_addresses m) (init_discovery kernel m)
  unfolding init_discovery
  init_discovery-Serves m =
      elim (Bool-cases (not m.discovery_enabled || (m.discovery_config.broadcast_port == 0))) [
        | inl off ↦ rw off pure-Serves
        | inr on ↦ rw on (serve_discovery-Serves m)
      ]

  init_periodic_tasks-Serves : (m : ServerMembers) → Serves [] (init_periodic_tasks m)
  unfolding init_periodic_tasks
  init_periodic_tasks-Serves m =
      for_each-Serves_none (λ interval. start (timer_loop interval))
        (λ interval. start-Serves (timer_loop interval) refl) m.periodic_tasks

  bus-Serves :
      (active : Bool) (l : Loop) → served l ≡ [] → Serves [] (if active then start l else pure tt)
  bus-Serves true l none = start-Serves l none
  bus-Serves false l none = pure-Serves

  init_dbus-Serves : (m : ServerMembers) → Serves [] (init_dbus m)
  unfolding init_dbus
  init_dbus-Serves m =
      then-Serves (if m.session_bus then start session_bus_loop else pure tt)
        (if m.system_bus then start system_bus_loop else pure tt)
        (bus-Serves m.session_bus session_bus_loop refl)
        (bus-Serves m.system_bus system_bus_loop refl)

  init_sockets-Serves : (m : ServerMembers) → Serves (configured m) (init_sockets kernel m)
  unfolding init_sockets init_tcp_sockets init_unix_sockets init_udp_sockets
  init_sockets-Serves m =
      then-Serves (init_tcp_sockets kernel m) _
        (for_each-Serves (serve_tcp kernel) (λ x. tcp_address x.0) serve_tcp-Serves
          m.config.tcp_ports)
        (then-Serves (init_unix_sockets kernel m) _
          (for_each-Serves (serve_unix kernel) (λ x. unix_address_of x.0) serve_unix-Serves
            m.config.unix_paths)
          (then-Serves (init_periodic_tasks m) _ (init_periodic_tasks-Serves m) (
            then-Serves (init_dbus m) _ (init_dbus-Serves m) (
              then-Serves (init_udp_sockets kernel m) _
                (for_each-Serves (serve_udp kernel) udp_address serve_udp-Serves m.config.udp_ports)
                (init_discovery-Serves m)))))

  -- Whatever the kernel answers: init binds the configured addresses in order, TCP, Unix, UDP and
  -- discovery, and every descriptor that it opened is served by one loop, in the order of opening.
  -- Where it returns, all of them are bound and served; where it throws, those bound are a part at
  -- the front, and at most the last socket, at which a bind or a listen failed, is left open and
  -- served by nobody.
  pub init-Listens :
      (m : ServerMembers) (s : Setup)
      → s.opened ≡ all_served s.loops
      → let (r, t) = init kernel m s in Listens (configured m) (addresses s.bound) r t
  unfolding init init_defaults
  init-Listens m s h = init_sockets-Serves m (record (init_defaults s).1 { running = true }) h
