-- ===== src/Udp/Accepts.antt =====
-- server/acceptor_udp_base.go: a datagram of one packet becomes a connection with its message.
use netman.Common.{
  ℕ, ◌≡◌, sym, ap, subst, ◌∙◌, false, none, Bytes, ◌++◌, length, take, drop, ◌==◌, arith, if_then,
  ==_refl, take_all,
}
use netman.Common.Endian.{IsU32, u32_le}
use netman.Kernel.{Sys, Net, CreateResult, created, create_failed, RecvResult, datagram}
use netman.Host.{Host}
use netman.EventLoop.{EventLoop}
use netman.Connect.{BaseConnect}
use netman.Util.Message
use netman.Util.Message.{Message, set_data}
use netman.Util.DataPack.{DataPacker}
use netman.Util.DataPack.RoundTrip.{header, Admits}
use netman.Manager.{ConnectManager}
use netman.Router.{RouterProtocol}
use netman.Router.Layout.{default_packer}
use netman.Router.Datagram.{received}
use netman.Acceptor.{Acceptor, AcceptOptions, Protocols}
use netman.Acceptor.Serves.{router_protocols, Registers}
use netman.Udp.Attach.{Connected, or_fail-Connected, attach-Connected}
use netman.Udp.Parse.{parse_datagram_exact}
use netman.Udp.{UdpNet, attach, or_fail, set_up, after_parse, after_receive, make_udp_connect}

set_data-received :
    (i : ℕ) (body : Bytes)
    → IsU32 (length body)
    → set_data (header (length body) i) (take (length body) body) ≡ received i body
unfolding set_data
set_data-received i body hn =
    ap (set_data (header (length body) i)) (take_all (length body) body (omega arith))
    ∙ ap (λ k. record (received i body) { data_len = k }) (omega arith)

-- The calls that set a peer's socket up succeed.
pub record SetsUp {A W : Type 0} (udp : UdpNet A W) : Type 0 where
  pub sockets : (w : W) → (fd : ℕ) × ((udp.socket w).0 ≡ created fd)
  pub ports : (fd : ℕ) (w : W) → (udp.reuse_port fd w).0 ≡ none
  pub addresses : (fd : ℕ) (w : W) → (udp.reuse_addr fd w).0 ≡ none
  pub binds : (fd : ℕ) (w : W) → (udp.bind fd w).0 ≡ none
  pub connects : (fd : ℕ) (peer : A) (w : W) → (udp.connect fd peer w).0 ≡ none

module _ {A W : Type 0} (sys : Sys W) (net : Net W) (udp : UdpNet A W) (host : Host W)
    (websocket : BaseConnect → RouterProtocol) (d : DataPacker) (options : AcceptOptions)
    (buffer_length : ℕ) (clock : W → ℕ) (loop : EventLoop) where
  abbrev protocols : Protocols RouterProtocol W
  protocols = router_protocols sys host websocket

  module _ (ups : SetsUp udp) (reg : Registers sys loop) where
    set_up-Connected :
        (r : CreateResult) (peer : A) (bs : Bytes) (message : Message) (a : Acceptor)
        (m : ConnectManager RouterProtocol) (w : W)
        → ((fd : ℕ) × (r ≡ created fd))
        → m.locked ≡ false
        → Connected sys net udp host websocket d options buffer_length clock loop
            (set_data message (take (Message.len message) (drop 8 bs)))
            a
            (set_up sys net udp protocols
              (default_packer d)
              options
              buffer_length
              clock
              loop
              r
              peer
              bs
              message
              a
              m
              w)
    unfolding set_up
    set_up-Connected (create_failed e) peer bs message a m w (fd, h) free = cc
    set_up-Connected (created fd) peer bs message a m w h free =
        let msg = set_data message (take (Message.len message) (drop 8 bs)) in
        let attached =
          attach sys net udp protocols (default_packer d) options buffer_length clock loop fd bs
            message a m in
        let chain =
          or_fail sys net udp protocols (default_packer d) options buffer_length clock loop in
        let connecting = λ (w : W). chain (udp.connect fd peer w) attached a m in
        let binding = λ (w : W). chain (udp.bind fd w) connecting a m in
        let addressing = λ (w : W). chain (udp.reuse_addr fd w) binding a m in
        or_fail-Connected sys net udp host websocket d options buffer_length clock loop msg
          (udp.reuse_port fd w) addressing a m (ups.ports fd w)
          (λ w.
            or_fail-Connected sys net udp host websocket d options buffer_length clock loop msg
              (udp.reuse_addr fd w) binding a m (ups.addresses fd w)
              (λ w.
                or_fail-Connected sys net udp host websocket d options buffer_length clock loop msg
                  (udp.bind fd w) connecting a m (ups.binds fd w)
                  (λ w.
                    or_fail-Connected sys net udp host websocket d options buffer_length clock loop
                      msg (udp.connect fd peer w) attached a m (ups.connects fd peer w)
                      (λ w.
                        attach-Connected sys net udp host websocket d options buffer_length clock
                          loop fd bs message a m w reg free))))

    -- A datagram of a packed message, of a number and a length of 32 bits and within the packer's
    -- limit, on a manager whose lock is free, where the peer's socket can be set up, every id has a
    -- poller and registrations succeed: makeUdpConnect returns a new connection of the next id with the
    -- message, and the manager holds the connection, attached to the poller of its id.
    pub make_udp_connect-Connected :
        (i : ℕ) (body : Bytes) (fd : ℕ) (peer : A) (a : Acceptor)
        (m : ConnectManager RouterProtocol) (w w' : W)
        → IsU32 i
        → IsU32 (length body)
        → Admits d (length body)
        → m.locked ≡ false
        → udp.recv_from fd buffer_length w
          ≡ (datagram ((u32_le (length body) ++ u32_le i) ++ body), peer, w')
        → Connected sys net udp host websocket d options buffer_length clock loop
            (received i body)
            a
            (make_udp_connect sys net udp protocols
              (default_packer d)
              options
              buffer_length
              clock
              loop
              fd
              a
              m
              w)
    unfolding make_udp_connect after_receive Message.len set_data u32_le
    make_udp_connect-Connected i body fd peer a m w w' hi hn fits free came =
        let bs : Bytes = (u32_le (length body) ++ u32_le i) ++ body in
        let parsed =
          parse_datagram_exact d (length body) i body hn hi fits
          ∙ if_then (length body == length body) _ _ (==_refl (length body)) in
        let (socket_fd, made) = ups.sockets w' in
        let after =
          after_receive sys net udp protocols (default_packer d) options buffer_length clock loop in
        let setting =
          set_up sys net udp protocols (default_packer d) options buffer_length clock loop
            (udp.socket w').0 peer bs in
        subst
          (λ (t : RecvResult × A × W).
            Connected sys net udp host websocket d options buffer_length clock loop
              (received i body) a (after t.0 t.1 a m t.2))
          (sym came)
          (subst
            (λ r.
              Connected sys net udp host websocket d options buffer_length clock loop
                (received i body) a
                (after_parse sys net udp protocols (default_packer d) options buffer_length clock
                  loop r peer bs a m w'))
            (sym parsed)
            (subst
              (λ msg.
                Connected sys net udp host websocket d options buffer_length clock loop msg a
                  (setting (header (length body) i) a m (udp.socket w').1))
              (set_data-received i body hn)
              (set_up-Connected (udp.socket w').0 peer bs (header (length body) i) a m
                (udp.socket w').1 (socket_fd, made) free)))
