-- ===== src/Server/Datagrams.antt =====
-- server/server_udp.go: a datagram server is made.
use netman.Common.{ℕ, Option, none, some, List, Bytes, leb, if◌then◌else◌}
use netman.Common.Int.{pos_part}
use netman.Errors.{Errno}
use netman.Kernel.{Sys, Net, CreateResult, created, create_failed}
use netman.EventLoop.{EventLoop, new_event_loop, init}
use netman.Dispatch.{router_mode}
use netman.Options.{Options, Setter, parse_option}
use netman.Socket.{or_panic}
use netman.Udp.{UdpNet}
use netman.Udp.Turns.{new_acceptor_udp}
use netman.Server.{Server, with_defaults, new_server, in_mode}

module _ {O : Type 0} where
  -- The defaults of createUDPServer.
  unfoldable pub with_udp_defaults : ℕ → Options O → Options O
  unfolding with_defaults
  with_udp_defaults num_cpu o =
      let o' = with_defaults num_cpu o in
      record o' {
        udp_packet_buffer_length =
            if leb o.udp_packet_buffer_length 0 then 32768 else o.udp_packet_buffer_length;
      }

module _ {A W : Type 0} (udp : UdpNet A W) (resolve : Bytes → Option ℕ) where
  abbrev pub bound : Option ℕ → ℕ → W → Option (ℕ × W)
  bound none fd w = none
  bound (some port) fd w =
      or_panic (udp.reuse_port fd w)
        (λ w. or_panic (udp.reuse_addr fd w) (λ w. or_panic (udp.bind fd w) (λ w. some (fd, w))))

  abbrev pub opened : Bytes → CreateResult × W → Option (ℕ × W)
  opened address (create_failed e, w) = none
  opened address (created fd, w) = bound (resolve address) fd w

  -- newUdpSocket; `resolve` is net.ResolveUDPAddr, and `bind` of the calls binds to its result.
  unfoldable pub new_udp_socket : Bytes → W → Option (ℕ × W)
  new_udp_socket address w = opened address (udp.socket w)

module _ {O A Ctx C W V : Type 0} (sys : Sys W) (net : Net W) (udp : UdpNet A W)
    (resolve : Bytes → Option ℕ) (num_cpu : ℕ) where
  abbrev pub after_init :
      Options O → ℕ → Option Errno × EventLoop × W → Option (Server O Ctx C W V × W)
  after_init o fd (some e, loop, w) = none
  after_init o fd (none, loop, w) = new_server o fd loop (new_acceptor_udp sys net w)

  abbrev pub after_socket : Options O → Option (ℕ × W) → Option (Server O Ctx C W V × W)
  after_socket o none = none
  after_socket o (some (fd, w)) =
      after_init o fd (init net.epoll_create (new_event_loop (pos_part o.num_event_loop)) w)

  abbrev pub after_options : Bytes → Option (Options O) → W → Option (Server O Ctx C W V × W)
  after_options address none w = none
  after_options address (some o) w =
      after_socket (with_udp_defaults num_cpu o) (new_udp_socket udp resolve address w)

  -- createUDPServer.
  unfoldable pub create_udp_server : Bytes → List (Setter O) → W → Option (Server O Ctx C W V × W)
  create_udp_server address opts w = after_options address (parse_option opts) w

  -- UDP.
  unfoldable pub udp_ : Bytes → List (Setter O) → W → Option (Server O Ctx C W V × W)
  unfolding create_udp_server
  udp_ address opts w = in_mode router_mode none (create_udp_server address opts w)
