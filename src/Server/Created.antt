-- ===== src/Server/Created.antt =====
-- server/server.go, New and Start: a server that is created can serve.
use netman.Common.{
  ℕ, ◌<◌, ◌≡◌, refl, ◌⊎◌, inl, inr, false, Option, none, some, List, [], Bytes, arith,
}
use netman.Common.Int.{pos_part}
use netman.Errors.{Errno}
use netman.Kernel.{Sys, Net}
use netman.Epoll.{Poller}
use netman.EventLoop.{EventLoop, new_event_loop, init, poller_of}
use netman.EventLoop.Choice.{init-poller_of}
use netman.Manager.{new_connect_manager}
use netman.Dispatch.{router_mode}
use netman.Router.{RouterProtocol}
use netman.Options.{Options, Setter, parse_option}
use netman.Options.Last.{OneOf}
use netman.Socket.{SocketSys, create_socket}
use netman.Acceptor.{Acceptor, new_acceptor}
use netman.Wait.Served.{IsServing}
use netman.Server.{
  Server, stopped, with_defaults, new_server, after_init, after_socket, after_options,
  create_tcp_server, in_mode, new_,
}

-- A server that has not started: every id has a poller, the manager serves, and the channel is open.
pub record IsReady {O Ctx W V : Type 0} (s : Server O Ctx RouterProtocol W V) : Type 0 where
  pub at_rest : s.status ≡ stopped
  pub polled : (id : ℕ) → (p : Poller) × (poller_of s.eventloop id ≡ some p)
  pub serving : IsServing s.connect_mgr
  pub not_closed : s.emit_closed ≡ false

pub new_connect_manager-IsServing : IsServing new_connect_manager
unfolding new_connect_manager
new_connect_manager-IsServing = record { free = refl; is_map = tt; all = tt }

with_defaults_some_loop :
    {O : Type 0} (num_cpu : ℕ) (o : Options O)
    → 0 < num_cpu
    → 0 < pos_part (with_defaults num_cpu o).num_event_loop
unfolding with_defaults
with_defaults_some_loop num_cpu o h = ground arith

module _ {O W : Type 0} (sys : Sys W) (net : Net W) (sockets : SocketSys W) (num_cpu : ℕ) where
  -- Why a call of New panics: the options, the socket, a poller or the acceptor.
  abbrev pub NoPoller : Options O → ℕ × W → Type 0
  NoPoller o (fd, w) =
      let (e, loop, w') = init net.epoll_create (new_event_loop (pos_part o.num_event_loop)) w in
      ((x : Errno) × (e ≡ some x)) ⊎ (new_acceptor sys net w' ≡ none)

  abbrev pub NoSocket : Bytes → Options O → W → Type 0
  NoSocket address o w =
      (create_socket sockets address o.tcp_keep_alive w ≡ none)
      ⊎ ((r : ℕ × W) × (create_socket sockets address o.tcp_keep_alive w ≡ some r) × NoPoller o r)

  abbrev pub NoServer : Bytes → List (Setter O) → W → Type 0
  NoServer address opts w =
      (parse_option opts ≡ none)
      ⊎ ((o : Options O) × (parse_option opts ≡ some o)
          × NoSocket address (with_defaults num_cpu o) w)

module _ {O W : Type 0} (Ctx V : Type 0) (sys : Sys W) (net : Net W) (sockets : SocketSys W)
    (num_cpu : ℕ) where
  abbrev pub ReadyServer : Server O Ctx RouterProtocol W V × W → Type 0
  ReadyServer (s, w) = IsReady s × (s.connect_mgr.connects ≡ [])

  new_server-ready :
      (N : Type 0) (o : Options O) (fd : ℕ) (loop : EventLoop) (r : Option (Acceptor × W))
      → (r ≡ none → N)
      → ((id : ℕ) → (p : Poller) × (poller_of loop id ≡ some p))
      → OneOf (new_server o fd loop r) N ReadyServer
  new_server-ready N o fd loop none lost polled = lost refl
  new_server-ready N o fd loop (some (a, w)) lost polled = (
    record {
      at_rest = refl;
      polled = polled;
      serving = new_connect_manager-IsServing;
      not_closed = refl;
    },
    unfold new_connect_manager in refl,
  )

  after_init-ready :
      (N : Type 0) (o : Options O) (fd : ℕ) (t : Option Errno × EventLoop × W)
      → (((x : Errno) × (t.0 ≡ some x)) ⊎ (new_acceptor sys net t.2 ≡ none) → N)
      → (t.0 ≡ none → (id : ℕ) → (p : Poller) × (poller_of t.1 id ≡ some p))
      → OneOf (after_init sys net sockets num_cpu o fd t) N ReadyServer
  after_init-ready N o fd (some e, loop, w) lost polled = lost (inl (e, refl))
  after_init-ready N o fd (none, loop, w) lost polled =
      new_server-ready N o fd loop (new_acceptor sys net w) (λ h. lost (inr h)) (polled refl)

  after_socket-ready :
      (N : Type 0) (o : Options O) (r : Option (ℕ × W))
      → (r ≡ none → N)
      → ((q : ℕ × W) → r ≡ some q → NoPoller sys net sockets num_cpu o q → N)
      → 0 < pos_part o.num_event_loop
      → OneOf (after_socket sys net sockets num_cpu o r) N ReadyServer
  after_socket-ready N o none lost no_poller some_loop = lost refl
  after_socket-ready N o (some (fd, w)) lost no_poller some_loop =
      let num = pos_part o.num_event_loop in
      after_init-ready N o fd (init net.epoll_create (new_event_loop num) w)
        (no_poller (fd, w) refl)
        (λ done id. init-poller_of net.epoll_create num id w some_loop done)

  after_options-ready :
      (N : Type 0) (address : Bytes) (r : Option (Options O)) (w : W)
      → (r ≡ none → N)
      → ((o : Options O)
          → r ≡ some o
          → NoSocket sys net sockets num_cpu address (with_defaults num_cpu o) w
          → N)
      → 0 < num_cpu
      → OneOf (after_options sys net sockets num_cpu address r w) N ReadyServer
  after_options-ready N address none w lost no_socket cpus = lost refl
  after_options-ready N address (some o) w lost no_socket cpus =
      let o' = with_defaults num_cpu o in
      after_socket-ready N o' (create_socket sockets address o'.tcp_keep_alive w)
        (λ h. no_socket o refl (inl h)) (λ q made h. no_socket o refl (inr (q, made, h)))
        (with_defaults_some_loop num_cpu o cpus)

  abbrev pub ReadyRouter : Server O Ctx RouterProtocol W V × W → Type 0
  ReadyRouter (s, w) =
      IsReady s × (s.connect_mgr.connects ≡ []) × (s.options.application ≡ router_mode)

  in_mode-ready :
      (N : Type 0) (r : Option (Server O Ctx RouterProtocol W V × W))
      → OneOf r N ReadyServer
      → OneOf (in_mode router_mode none r) N ReadyRouter
  in_mode-ready N none h = h
  in_mode-ready N (some (s, w)) (v, empty) = (
    record {
      at_rest = v.at_rest;
      polled = v.polled;
      serving = v.serving;
      not_closed = v.not_closed;
    },
    empty,
    refl,
  )

  -- On a machine with a processor, New panics only where an option, the socket, a poller or the
  -- acceptor fails. Otherwise its server has not started, is in router mode, has a poller for every
  -- connection's id, no connections and an open channel.
  pub new_-ready :
      (address : Bytes) (opts : List (Setter O)) (w : W)
      → 0 < num_cpu
      → OneOf
          (new_ sys net sockets num_cpu address opts w)
          (NoServer sys net sockets num_cpu address opts w)
          ReadyRouter
  unfolding new_ create_tcp_server
  new_-ready address opts w cpus =
      let N = NoServer sys net sockets num_cpu address opts w in
      in_mode-ready N (create_tcp_server sys net sockets num_cpu address opts w) (
        after_options-ready N address (parse_option opts) w inl (λ o parsed h. inr (o, parsed, h))
          cpus)
