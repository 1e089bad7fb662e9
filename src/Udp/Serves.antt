-- ===== src/Udp/Serves.antt =====
-- server/acceptor_udp_base.go and server/acceptor_udp_linux.go: the acceptor of a datagram server leaves
-- its manager fit for the pollers, whatever comes.
use netman.Common.{ℕ, ◌≡◌, refl, sym, subst, Bool, true, Option, none, some, Bytes, take, drop}
use netman.Common.Int.{pos_part}
use netman.Errors.{Errno, eagain, eintr, ebadf, epipe, other, Result, ok, err}
use netman.Kernel.{
  Sys, Net, CreateResult, created, create_failed, RecvResult, datagram, recv_failed, Call, returns,
}
use netman.Epoll
use netman.Epoll.{Poller}
use netman.Host.{Host}
use netman.EventLoop as Loop
use netman.EventLoop.{EventLoop, poller_of, registered, add_read_at}
use netman.Connect.{BaseConnect, new_base_connect, set_ep_fd, set_poller}
use netman.Util.Queue.{new_queue}
use netman.Util.Message
use netman.Util.Message.{Message, set_data}
use netman.Manager.{ConnectManager, ended, blocked, panicked, ◌>>=◌, of_lock}
use netman.Manager.Map.{store-IsMap}
use netman.Manager.Entries.{HoldsAll, store-AllEntries}
use netman.Router.{RouterProtocol, new_router_protocol}
use netman.Router.Layout.{Packer}
use netman.Acceptor.{Acceptor, AcceptOptions, Protocols, increment_id}
use netman.Acceptor.Serves.{router_protocols, Registers, add_free}
use netman.Udp.{
  UdpNet, Made, after_add, attach, or_fail, set_up, after_parse, parse_datagram, after_receive,
  make_udp_connect,
}
use netman.Wait.Datagrams.{IsDatagram}

new-IsDatagram :
    (id fd : ℕ) (has_hooks tls_enable : Bool) (now : ℕ) (p : Poller)
    → IsDatagram fd (
        new_router_protocol
          (set_poller (set_ep_fd (new_base_connect id fd true has_hooks tls_enable now) p.epfd) p))
unfolding new_router_protocol new_base_connect set_poller set_ep_fd new_queue
new-IsDatagram id fd has_hooks tls_enable now p = record {
  under = refl;
  udp = refl;
  queued = record { attached = (p, refl); drained = λ h. refl };
}

abbrev pub Peers : ConnectManager RouterProtocol → Type 0
Peers m = HoldsAll IsDatagram m

module _ {A W : Type 0} (sys : Sys W) (net : Net W) (udp : UdpNet A W) (host : Host W)
    (websocket : BaseConnect → RouterProtocol) (p : Packer) (options : AcceptOptions)
    (buffer_length : ℕ) (clock : W → ℕ) (loop : EventLoop) (reg : Registers sys loop) where
  abbrev peers : Protocols RouterProtocol W
  peers = router_protocols sys host websocket

  -- A call that returns, and leaves such a manager.
  abbrev pub Kept : Made RouterProtocol W → Type 0
  Kept (ended (r, a, m, w)) = Peers m
  Kept blocked = ⊥
  Kept panicked = ⊥

  abbrev added :
      Message
      → Call (Option Errno)
      → Acceptor
      → RouterProtocol
      → ConnectManager RouterProtocol
      → W
      → Made RouterProtocol W
  added msg r a c m w = after_add sys net udp peers p options buffer_length clock loop msg r a c m w

  added-Kept :
      (msg : Message) (a : Acceptor) (c : RouterProtocol) (m : ConnectManager RouterProtocol)
      (w : W)
      → IsDatagram c.fd c
      → Peers m
      → Kept (added msg (returns none) a c m w)
  unfolding after_add
  added-Kept msg a c m w v s =
      subst (λ r. Kept (of_lock r >>= λ m'. ended (ok (c, msg), a, m', w)))
        (sym (add_free m c.fd c s.free))
        (record {
          free = refl;
          is_map = store-IsMap c.fd c m.connects s.is_map;
          all = store-AllEntries IsDatagram c.fd c m.connects v s.all;
        })

  registered-Kept :
      (id fd now : ℕ) (msg : Message) (a : Acceptor) (e : Option Errno) (q : Poller)
      (m : ConnectManager RouterProtocol) (w : W)
      → e ≡ none
      → Peers m
      → let base = new_base_connect id fd true options.has_hooks options.tls_enable now in
        let (r, base') = registered q base e in
        Kept (added msg r a (record (new_router_protocol base) { base = base' }) m w)
  unfolding new_router_protocol new_base_connect set_poller set_ep_fd
  registered-Kept id fd now msg a none q m w done s =
      let base = new_base_connect id fd true options.has_hooks options.tls_enable now in
      added-Kept msg a (new_router_protocol (set_poller (set_ep_fd base q.epfd) q)) m w
        (new-IsDatagram id fd options.has_hooks options.tls_enable now q) s
  registered-Kept id fd now msg a (some x) q m w done s = cc

  abbrev add_at :
      Message
      → Acceptor
      → Option Poller
      → RouterProtocol
      → ConnectManager RouterProtocol
      → W
      → Made RouterProtocol W
  add_at msg a o c m w =
      let (r, base', w') = add_read_at sys o c.base w in
      added msg r a (record c { base = base' }) m w'

  attach-Kept :
      (fd : ℕ) (bs : Bytes) (message : Message) (a : Acceptor) (m : ConnectManager RouterProtocol)
      (w : W)
      → Peers m
      → Kept (attach sys net udp peers p options buffer_length clock loop fd bs message a m w)
  unfolding attach increment_id Loop.add_read Epoll.add_read new_router_protocol new_base_connect
  attach-Kept fd bs message a m w s =
      let a' = (increment_id a).1 in
      let id = pos_part a'.conn_id in
      let (q, polled) = reg.polled id in
      let base = new_base_connect id fd true options.has_hooks options.tls_enable (clock w) in
      let msg = set_data message (take (Message.len message) (drop p.header_length bs)) in
      subst (λ o. Kept (add_at msg a' o (new_router_protocol base) m w)) (sym polled)
        (registered-Kept id fd (clock w) msg a' _ q m _ (reg.registers q.epfd id fd w) s)

  or_fail-Kept :
      (t : Option Errno × W) (next : W → Made RouterProtocol W) (a : Acceptor)
      (m : ConnectManager RouterProtocol)
      → Peers m
      → ((w : W) → Kept (next w))
      → Kept (or_fail sys net udp peers p options buffer_length clock loop t next a m)
  or_fail-Kept (none, w) next a m s h = h w
  or_fail-Kept (some e, w) next a m s h = s

  set_up-Kept :
      (r : CreateResult) (peer : A) (bs : Bytes) (message : Message) (a : Acceptor)
      (m : ConnectManager RouterProtocol) (w : W)
      → Peers m
      → Kept (set_up sys net udp peers p options buffer_length clock loop r peer bs message a m w)
  unfolding set_up
  set_up-Kept (create_failed e) peer bs message a m w s = s
  set_up-Kept (created fd) peer bs message a m w s =
      or_fail-Kept (udp.reuse_port fd w) _ a m s (λ w.
        or_fail-Kept (udp.reuse_addr fd w) _ a m s (λ w. or_fail-Kept (udp.bind fd w) _ a m s (λ w.
          or_fail-Kept (udp.connect fd peer w) _ a m s (λ w. attach-Kept fd bs message a m w s))))

  after_parse-Kept :
      (r : Result Message) (peer : A) (bs : Bytes) (a : Acceptor)
      (m : ConnectManager RouterProtocol) (w : W)
      → Peers m
      → Kept (after_parse sys net udp peers p options buffer_length clock loop r peer bs a m w)
  after_parse-Kept (err e) peer bs a m w s = s
  after_parse-Kept (ok message) peer bs a m w s =
      let (r, w') = udp.socket w in set_up-Kept r peer bs message a m w' s

  after_receive-Kept :
      (r : RecvResult) (peer : A) (a : Acceptor) (m : ConnectManager RouterProtocol) (w : W)
      → Peers m
      → Kept (after_receive sys net udp peers p options buffer_length clock loop r peer a m w)
  unfolding after_receive
  after_receive-Kept (recv_failed ebadf) peer a m w s = s
  after_receive-Kept (recv_failed eagain) peer a m w s = s
  after_receive-Kept (recv_failed eintr) peer a m w s = s
  after_receive-Kept (recv_failed epipe) peer a m w s = s
  after_receive-Kept (recv_failed other) peer a m w s = s
  after_receive-Kept (datagram bs) peer a m w s =
      after_parse-Kept (parse_datagram p bs) peer bs a m w s

  -- makeUdpConnect, in router mode, with a poller for every id and registrations that succeed, on a
  -- manager whose lock is free and that holds datagram connections: on each branch it returns, with the
  -- manager such.
  pub make_udp_connect-Kept :
      (fd : ℕ) (a : Acceptor) (m : ConnectManager RouterProtocol) (w : W)
      → Peers m
      → Kept (make_udp_connect sys net udp peers p options buffer_length clock loop fd a m w)
  unfolding make_udp_connect
  make_udp_connect-Kept fd a m w s =
      let (r, peer, w') = udp.recv_from fd buffer_length w in after_receive-Kept r peer a m w' s
