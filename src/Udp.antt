-- ===== src/Udp.antt =====
-- server/acceptor_udp_base.go and server/acceptor_udp_linux.go: the acceptor of a datagram server, which
-- makes a connected socket for every peer that sends a packet. `A` is the type of the peers' addresses.
pub mod Parse
pub mod Attach
pub mod Accepts
pub mod Turns
pub mod Serves
pub mod Listening
use netman.Common.{
  ℕ, zero, suc, ◌-◌, Bool, true, false, not, Option, none, some, List, [], ◌∷◌, Bytes, length, take,
  drop, ltb, ◌==◌, if◌then◌else◌,
}
use netman.Common.Int.{ℤ, pos, pos_part}
use netman.Errors.{
  Errno, eagain, eintr, ebadf, Error, errno, udp_acceptor_from, udp_not_packet, udp_not_complete,
  unpack_message, udp_socket_setup, Result, ok, err, ◌>>=◌, ◌>>◌, reject_if,
}
use netman.Kernel.{
  Sys, Net, CreateResult, created, create_failed, RecvResult, datagram, recv_failed, Event,
  WaitResult, ready, wait_failed, Call, returns, panics,
}
use netman.Epoll
use netman.Epoll.{Poller}
use netman.EventLoop as Loop
use netman.EventLoop.{EventLoop}
use netman.Connect.{BaseConnect, new_base_connect}
use netman.Util.Message
use netman.Util.Message.{Message, set_data}
use netman.Router.Layout.{Packer}
use netman.Manager as Manager
use netman.Manager.{ConnectManager, Ended, ended, blocked, panicked, of_lock}
use netman.Acceptor
use netman.Acceptor.{
  Acceptor, AcceptOptions, Protocols, Run, returned, failed, running, increment_id, new_acceptor,
  read_into,
}

-- The calls on datagram sockets. `bind` is to the server's own address.
pub record UdpNet (A W : Type 0) : Type 0 where
  pub recv_from : ℕ → ℕ → W → RecvResult × A × W
  pub socket : W → CreateResult × W
  pub reuse_port : ℕ → W → Option Errno × W
  pub reuse_addr : ℕ → W → Option Errno × W
  pub bind : ℕ → W → Option Errno × W
  pub connect : ℕ → A → W → Option Errno × W

-- `fmt.Errorf("unpack message err %v", err)`.
abbrev pub unpack_failed : Result Message → Result Message
unpack_failed (ok m) = ok m
unpack_failed (err e) = err (unpack_message e)

-- The message that a datagram declares, if it has just the bytes of one packet.
unfoldable pub parse_datagram : Packer → Bytes → Result Message
unfolding Message.len
parse_datagram p bs = do
  reject_if (ltb (length bs) p.header_length) udp_not_packet
  message ← unpack_failed (p.unpack (take p.header_length bs))
  reject_if (not (length bs - p.header_length == Message.len message)) udp_not_complete
  ok message

-- What makeUdpConnect leaves: the connection with the message for the channel, or the error.
abbrev pub Made : Type 0 → Type 0 → Type 0
Made C W = Ended (Result (C × Message) × Acceptor × ConnectManager C × W)

module _ {A C W : Type 0} (sys : Sys W) (net : Net W) (udp : UdpNet A W) (protocols : Protocols C W)
    (p : Packer) (options : AcceptOptions) (buffer_length : ℕ) (clock : W → ℕ)
    (loop : EventLoop) where
  -- After AddRead of the new connection.
  unfoldable pub after_add :
      Message → Call (Option Errno) → Acceptor → C → ConnectManager C → W → Made C W
  after_add message panics a c m w = panicked
  after_add message (returns (some e)) a c m w =
      Manager.◌>>=◌ (protocols.close c m w) (λ (m', w'). ended (err (errno e), a, m', w'))
  after_add message (returns none) a c m w =
      Manager.◌>>=◌ (of_lock (Manager.add m (protocols.base c).fd c))
        (λ m'. ended (ok (c, message), a, m', w))

  -- The connection on a socket that is set up; the message takes its body from the datagram.
  unfoldable pub attach : ℕ → Bytes → Message → Acceptor → ConnectManager C → W → Made C W
  unfolding after_add increment_id new_base_connect Loop.add_read Message.len set_data
  attach fd bs message a m w =
      let (id, a') = increment_id a in
      let base =
        new_base_connect (pos_part id) fd true options.has_hooks options.tls_enable (clock w) in
      let c = protocols.new_router_protocol base in
      let message' = set_data message (take (Message.len message) (drop p.header_length bs)) in
      let (r, base', w') = Loop.add_read sys loop (protocols.base c) w in
      after_add message' r a' (protocols.with_base c base') m w'

  -- An option or an address that cannot be set leaves the socket open.
  abbrev pub or_fail : Option Errno × W → (W → Made C W) → Acceptor → ConnectManager C → Made C W
  or_fail (some e, w) next a m = ended (err (udp_socket_setup e), a, m, w)
  or_fail (none, w) next a m = next w

  unfoldable pub set_up :
      CreateResult → A → Bytes → Message → Acceptor → ConnectManager C → W → Made C W
  unfolding attach
  set_up (create_failed e) peer bs message a m w = ended (err (udp_socket_setup e), a, m, w)
  set_up (created fd) peer bs message a m w =
      or_fail (udp.reuse_port fd w)
        (λ w.
          or_fail (udp.reuse_addr fd w)
            (λ w.
              or_fail (udp.bind fd w)
                (λ w. or_fail (udp.connect fd peer w) (attach fd bs message a m) a m) a m)
            a m)
        a m

  abbrev pub after_parse : Result Message → A → Bytes → Acceptor → ConnectManager C → W → Made C W
  after_parse (err e) peer bs a m w = ended (err e, a, m, w)
  after_parse (ok message) peer bs a m w =
      let (r, w') = udp.socket w in set_up r peer bs message a m w'

  unfoldable pub after_receive : RecvResult → A → Acceptor → ConnectManager C → W → Made C W
  unfolding parse_datagram set_up Acceptor.close
  after_receive (recv_failed ebadf) peer a m w =
      ended (err (errno ebadf), a, m, Acceptor.close sys net a w)
  after_receive (recv_failed e) peer a m w = ended (err udp_acceptor_from, a, m, w)
  after_receive (datagram bs) peer a m w = after_parse (parse_datagram p bs) peer bs a m w

  -- makeUdpConnect.
  unfoldable pub make_udp_connect : ℕ → Acceptor → ConnectManager C → W → Made C W
  unfolding after_receive
  make_udp_connect fd a m w =
      let (r, peer, w') = udp.recv_from fd buffer_length w in after_receive r peer a m w'
