-- ===== src/Udp/Attach.antt =====
-- server/acceptor_udp_base.go: the connection on a peer's socket.
use netman.Common.{
  ℕ, ◌≡◌, refl, sym, subst, ◌∙◌, true, false, Option, none, some, Bytes, take, drop, ◌==◌, if_then,
  ==_refl,
}
use netman.Common.Int.{pos, pos_part, ◌+ℤ◌}
use netman.Errors.{Errno, ok, err}
use netman.Kernel.{Sys, Net, returns}
use netman.Epoll
use netman.Epoll.{Poller}
use netman.Host.{Host}
use netman.EventLoop as Loop
use netman.EventLoop.{EventLoop, poller_of, registered, add_read_at}
use netman.Connect.{BaseConnect, new_base_connect, set_ep_fd, set_poller}
use netman.Util.Message
use netman.Util.Message.{Message, set_data}
use netman.Util.DataPack.{DataPacker, get_header_length}
use netman.Manager
use netman.Manager.{
  ConnectManager, Ended, ended, blocked, panicked, of_lock, lookup, store, add, lock,
}
use netman.Manager.Map.{lookup-store}
use netman.Router.{RouterProtocol, new_router_protocol}
use netman.Router.Layout.{default_packer}
use netman.Acceptor.{Acceptor, AcceptOptions, Protocols, increment_id}
use netman.Acceptor.Serves.{router_protocols, Registers, add_free}
use netman.Udp.{UdpNet, Made, after_add, attach, or_fail}

module _ {A W : Type 0} (sys : Sys W) (net : Net W) (udp : UdpNet A W) (host : Host W)
    (websocket : BaseConnect → RouterProtocol) (d : DataPacker) (options : AcceptOptions)
    (buffer_length : ℕ) (clock : W → ℕ) (loop : EventLoop) where
  abbrev pub protocols : Protocols RouterProtocol W
  protocols = router_protocols sys host websocket

  -- What a call leaves that has taken the message: the next id is given, the message comes with its
  -- connection, and the manager holds the connection, attached to the poller of its id.
  abbrev pub Connected : Message → Acceptor → Made RouterProtocol W → Type 0
  Connected msg a (ended (ok (c, msg'), a', m, w)) =
      (msg' ≡ msg)
      × (a'.conn_id ≡ a.conn_id +ℤ pos 1)
      × (c.id ≡ pos_part a'.conn_id)
      × (c.is_udp ≡ true)
      × (c.poller ≡ poller_of loop c.id)
      × (lookup c.fd m.connects ≡ some c)
  Connected msg a (ended (err e, a', m, w)) = ⊥
  Connected msg a blocked = ⊥
  Connected msg a panicked = ⊥

  after_add-Connected :
      (msg : Message) (a a' : Acceptor) (c : RouterProtocol) (m : ConnectManager RouterProtocol)
      (w : W)
      → a'.conn_id ≡ a.conn_id +ℤ pos 1
      → c.id ≡ pos_part a'.conn_id
      → c.is_udp ≡ true
      → c.poller ≡ poller_of loop c.id
      → m.locked ≡ false
      → Connected msg a (
          after_add sys net udp protocols
            (default_packer d)
            options
            buffer_length
            clock
            loop
            msg
            (returns none)
            a'
            c
            m
            w)
  unfolding after_add
  after_add-Connected msg a a' c m w next id kind at free =
      subst
        (λ r. Connected msg a (Manager.◌>>=◌ (of_lock r) (λ m'. ended (ok (c, msg), a', m', w))))
        (sym (add_free m c.fd c free))
        (
          refl,
          next,
          id,
          kind,
          at,
          lookup-store c.fd c.fd c m.connects ∙ if_then (c.fd == c.fd) _ _ (==_refl c.fd),
        )

  registered-Connected :
      (fd : ℕ) (msg : Message) (a a' : Acceptor) (e : Option Errno) (p : Poller)
      (m : ConnectManager RouterProtocol) (now : ℕ) (w : W)
      → e ≡ none
      → poller_of loop (pos_part a'.conn_id) ≡ some p
      → a'.conn_id ≡ a.conn_id +ℤ pos 1
      → m.locked ≡ false
      → let base =
          new_base_connect (pos_part a'.conn_id) fd true options.has_hooks options.tls_enable now in
        let (r, base') = registered p base e in
        Connected msg a (
          after_add sys net udp protocols
            (default_packer d)
            options
            buffer_length
            clock
            loop
            msg
            r
            a'
            (record (new_router_protocol base) { base = base' })
            m
            w)
  unfolding new_router_protocol new_base_connect set_poller set_ep_fd
  registered-Connected fd msg a a' none p m now w done polled next free =
      let base =
        new_base_connect (pos_part a'.conn_id) fd true options.has_hooks options.tls_enable now in
      after_add-Connected msg a a' (new_router_protocol (set_poller (set_ep_fd base p.epfd) p)) m w
        next refl refl (sym polled) free
  registered-Connected fd msg a a' (some x) p m now w done polled next free = cc

  abbrev add_at :
      Message
      → Acceptor
      → Option Poller
      → RouterProtocol
      → ConnectManager RouterProtocol
      → W
      → Made RouterProtocol W
  add_at msg a o c m w =
      let (r, base', w') = add_read_at sys o c.base w in
      after_add sys net udp protocols (default_packer d) options buffer_length clock loop msg r a
        (record c { base = base' }) m w'

  pub attach-Connected :
      (fd : ℕ) (bs : Bytes) (message : Message) (a : Acceptor) (m : ConnectManager RouterProtocol)
      (w : W)
      → Registers sys loop
      → m.locked ≡ false
      → Connected (set_data message (take (Message.len message) (drop 8 bs))) a (
          attach sys net udp protocols
            (default_packer d)
            options
            buffer_length
            clock
            loop
            fd
            bs
            message
            a
            m
            w)
  unfolding attach increment_id Loop.add_read Epoll.add_read new_router_protocol new_base_connect
      get_header_length
  attach-Connected fd bs message a m w reg free =
      let a' = (increment_id a).1 in
      let id = pos_part a'.conn_id in
      let (p, polled) = reg.polled id in
      let base = new_base_connect id fd true options.has_hooks options.tls_enable (clock w) in
      let msg = set_data message (take (Message.len message) (drop 8 bs)) in
      subst (λ o. Connected msg a (add_at msg a' o (new_router_protocol base) m w)) (sym polled)
        (registered-Connected fd msg a a' _ p m (clock w) _ (reg.registers p.epfd id fd w) polled
          refl free)

  pub or_fail-Connected :
      (msg : Message) (t : Option Errno × W) (next : W → Made RouterProtocol W) (a : Acceptor)
      (m : ConnectManager RouterProtocol)
      → t.0 ≡ none
      → ((w : W) → Connected msg a (next w))
      → Connected msg a (
          or_fail sys net udp protocols
            (default_packer d)
            options
            buffer_length
            clock
            loop
            t
            next
            a
            m)
  or_fail-Connected msg (none, w) next a m done h = h w
  or_fail-Connected msg (some e, w) next a m done h = cc
