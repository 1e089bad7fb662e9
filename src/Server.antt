-- ===== src/Server.antt =====
-- server/server.go: a server, from its options to its end. `O` is the type of the application's
-- objects, `Ctx` that of a message's context, and `V` what a middleware returns.
pub mod Datagrams
pub mod Created
pub mod Started
pub mod Stopped
pub mod Live
pub mod Beats
pub mod Sends
pub mod Safety
use netman.Common.{
  ℕ, ◌≡◌, Bool, true, false, Option, none, some, List, [], ◌∷◌, Bytes, leb, if◌then◌else◌,
}
use netman.Common.Int.{ℤ, pos, pos_part, geb}
use netman.Errors.{Errno}
use netman.Kernel.{Sys, Net, CreateResult, Call, returns, panics}
use netman.Epoll
use netman.Epoll.{Poller}
use netman.EventLoop as Loop
use netman.EventLoop.{EventLoop, new_event_loop, init}
use netman.Util.DataPack.{DataPacker, new_data_packer, set_max_body_length}
use netman.Router.Layout.{Packer, default_packer}
use netman.Manager.{
  ConnectManager, new_connect_manager, Connect, Ended, ended, blocked, panicked, ◌>>=◌, clear_all,
  len,
}
use netman.Dispatch.{
  Application, router_mode, websocket_mode, RouterMgr, Route, Middleware, new_router_mgr, add,
  resolve_group, use_, new_group,
}
use netman.Options.{Options, Setter, parse_option}
use netman.Socket.{SocketSys, create_socket}
use netman.Acceptor.{Acceptor, AcceptOptions, Protocols, Run, returned, new_acceptor, exit, run}

pub data Status : Type 0 where
  stopped started stopping : Status

-- The channel of messages is open until Stop closes it.
pub record Server (O Ctx C W V : Type 0) : Type 0 where
  pub status : Status
  pub options : Options O
  pub socket : ℕ
  pub acceptor : Acceptor
  pub eventloop : EventLoop
  pub connect_mgr : ConnectManager C
  pub packer : Packer
  pub emit_closed : Bool
  pub router_mgr : RouterMgr Ctx W V

abbrev pub packer_or : Option Packer → ℕ → Packer
packer_or (some p) n = p
packer_or none n = default_packer (set_max_body_length new_data_packer n)

module _ {O : Type 0} where
  -- The defaults of createTcpServer; `num_cpu` is runtime.NumCPU.
  unfoldable pub with_defaults : ℕ → Options O → Options O
  unfolding set_max_body_length new_data_packer
  with_defaults num_cpu o = record o {
    num_event_loop = if geb (pos 0) o.num_event_loop then pos num_cpu else o.num_event_loop;
    packer = some (packer_or o.packer o.max_body_length);
  }

  abbrev pub is_some : Option O → Bool
  is_some none = false
  is_some (some x) = true

  -- What the acceptor reads of the options, when it runs.
  abbrev pub accept_options : Options O → AcceptOptions
  accept_options o = record {
    tls_enable = o.tls_enable;
    has_hooks = is_some o.hooks;
    application = o.application;
  }

module _ {O Ctx C W V : Type 0} where
  abbrev pub new_server :
      Options O → ℕ → EventLoop → Option (Acceptor × W) → Option (Server O Ctx C W V × W)
  new_server o fd loop none = none
  new_server o fd loop (some (a, w)) = some (
    record {
      status = stopped;
      options = o;
      socket = fd;
      acceptor = a;
      eventloop = loop;
      connect_mgr = new_connect_manager;
      packer = packer_or o.packer o.max_body_length;
      emit_closed = false;
      router_mgr = new_router_mgr;
    },
    w,
  )

  abbrev pub in_mode :
      Application → Option O → Option (Server O Ctx C W V × W) → Option (Server O Ctx C W V × W)
  in_mode mode handler none = none
  in_mode mode none (some (s, w)) =
      some (record s { options = record s.options { application = mode } }, w)
  in_mode mode (some h) (some (s, w)) = some (
    record s { options = record s.options { application = mode; websocket_handler = some h } },
    w,
  )

module _ {O Ctx C W V : Type 0} (sys : Sys W) (net : Net W) (sockets : SocketSys W)
    (num_cpu : ℕ) where
  abbrev pub after_init :
      Options O → ℕ → Option Errno × EventLoop × W → Option (Server O Ctx C W V × W)
  after_init o fd (some e, loop, w) = none
  after_init o fd (none, loop, w) = new_server o fd loop (new_acceptor sys net w)

  abbrev pub after_socket : Options O → Option (ℕ × W) → Option (Server O Ctx C W V × W)
  after_socket o none = none
  after_socket o (some (fd, w)) =
      after_init o fd (init net.epoll_create (new_event_loop (pos_part o.num_event_loop)) w)

  abbrev pub after_options : Bytes → Option (Options O) → W → Option (Server O Ctx C W V × W)
  after_options address none w = none
  after_options address (some o) w =
      let o' = with_defaults num_cpu o in
      after_socket o' (create_socket sockets address o'.tcp_keep_alive w)

  -- createTcpServer at an address; `none` is a panic. The pollers' goroutines run beside it.
  unfoldable pub create_tcp_server : Bytes → List (Setter O) → W → Option (Server O Ctx C W V × W)
  create_tcp_server address opts w = after_options address (parse_option opts) w

  -- New.
  unfoldable pub new_ : Bytes → List (Setter O) → W → Option (Server O Ctx C W V × W)
  unfolding create_tcp_server
  new_ address opts w = in_mode router_mode none (create_tcp_server address opts w)

  -- Websocket.
  unfoldable pub websocket : Bytes → O → List (Setter O) → W → Option (Server O Ctx C W V × W)
  unfolding create_tcp_server
  websocket address handler opts w =
      in_mode websocket_mode (some handler) (create_tcp_server address opts w)

module _ {O Ctx C W V : Type 0} where
  -- AddRouter, which panics but in router mode.
  unfoldable pub add_router : Server O Ctx C W V → ℕ → Route Ctx W → Call (Server O Ctx C W V)
  add_router s msg_id router = elim s.options.application [
    | router_mode ↦ returns (record s { router_mgr = add s.router_mgr msg_id router })
    | websocket_mode ↦ panics
  ]

  -- Use, and Group; the group is the router manager's last.
  unfoldable pub use_all : Server O Ctx C W V → Middleware Ctx W V → Server O Ctx C W V
  use_all s callable = record s { router_mgr = use_ s.router_mgr callable }

  unfoldable pub group :
      Server O Ctx C W V → Middleware Ctx W V → List (Middleware Ctx W V) → Server O Ctx C W V
  group s callable more = record s { router_mgr = new_group s.router_mgr callable more }

  unfoldable pub total_connect : Server O Ctx C W V → ℕ
  total_connect s = len s.connect_mgr

module _ {O Ctx C W V : Type 0} (sys : Sys W) (net : Net W) (con : Connect C W)
    (protocols : Protocols C W) (clock : W → ℕ) where
  -- Start, for as many turns of the acceptor's loop at most. Unless the server is stopped it returns.
  abbrev pub start_from : Status → ℕ → Server O Ctx C W V → W → Ended (Run × Server O Ctx C W V × W)
  start_from started turns s w = ended (returned, s, w)
  start_from stopping turns s w = ended (returned, s, w)
  start_from stopped turns s w =
      let s' : Server O Ctx C W V = record s {
        status = started;
        router_mgr = resolve_group s.router_mgr;
      } in
      run sys net protocols (accept_options s'.options) clock s'.eventloop turns s'.socket
        s'.acceptor s'.connect_mgr w
      >>= λ (r, a, m, w'). ended (r, record s' { acceptor = a; connect_mgr = m }, w')

  unfoldable pub start : ℕ → Server O Ctx C W V → W → Ended (Run × Server O Ctx C W V × W)
  unfolding resolve_group run
  start turns s w = start_from s.status turns s w

  -- Stop, once the connections are cleared and the pollers closed: a channel that is closed already
  -- panics.
  abbrev pub close_rest : Server O Ctx C W V → Call W → Ended (Server O Ctx C W V × W)
  close_rest s panics = panicked
  close_rest s (returns w) =
      if s.emit_closed
      then panicked
      else ended (record s { emit_closed = true }, exit sys net s.acceptor (sys.close s.socket w).1)

  unfoldable pub stop : Server O Ctx C W V → W → Ended (Server O Ctx C W V × W)
  unfolding clear_all Loop.stop exit
  stop s w = clear_all sys con s.connect_mgr w >>= λ (m, w₁).
      close_rest (record s { status = stopping; connect_mgr = m }) (Loop.stop sys s.eventloop w₁)
