-- ===== src/Wait/Datagrams.antt =====
-- eventloop/epoll.go over server/router.go, where the connections are those of a datagram server.
use netman.Common.{
  ℕ, ◌≡◌, refl, ◌∙◌, true, false, Option, Bytes, leb, not, ◌&&◌, arith, choose, subst, sym, ap,
}
use netman.Errors.{Error, Outcome, nothing, packet, fail, crash, stuck}
use netman.Kernel.{Sys, WaitResult, returns}
use netman.Epoll.{Poller}
use netman.Host.{Host}
use netman.Util.Message
use netman.Util.Message.{Message}
use netman.Util.DataPack.{DataPacker}
use netman.Connect.{BaseConnect, proceed_write, set_handshake_completed, set_last_message_time}
use netman.Connect.Tls.{Tls}
use netman.Connect.Order.{WriteLaws, IsQueued}
use netman.Connect.Proceed.{proceed_write-Keeps}
use netman.Connect.Socket.{SameSocket, proceed_write-SameSocket}
use netman.Manager.{ConnectManager}
use netman.Manager.Entries.{HoldsAll, delete-AllEntries}
use netman.Router.{RouterProtocol, receive_from_udp}
use netman.Router.Layout.{default_packer}
use netman.Router.Stream.Delivery.{enough}
use netman.Router.Stream.Ends.{Ends, on_udp, received-Ends}
use netman.Wait.{
  Session, Reaction, hang_up, close_with, if_udp, reaction, react, decode, after_decode, wait,
  refresh, silently,
}
use netman.Wait.Codes.{is_code, outcome_code, decode_packet-code, read_data-ReadsCodeless}
use netman.Wait.Served.{TlsLaws, sessions, close_at_holding}
use netman.Wait.Serving.{ServesOr, Serving, refresh-HoldsAll}
use netman.Wait.Serving.Loop.{ServesRound, wait-Serves}

-- A connection that makeUdpConnect made, under its own descriptor: it belongs to a poller and waits for a
-- writable socket if it has bytes left.
pub record IsDatagram (fd : ℕ) (c : RouterProtocol) : Type 0 where
  pub under : c.fd ≡ fd
  pub udp : c.is_udp ≡ true
  pub queued : IsQueued c.base

IsDatagram-base :
    (fd : ℕ) (c : RouterProtocol) (b : BaseConnect)
    → IsDatagram fd c
    → SameSocket c.base b
    → IsQueued b
    → IsDatagram fd (record c { base = b })
IsDatagram-base fd c b v (same_fd, same_udp) q = record {
  under = same_fd ∙ v.under;
  udp = same_udp ∙ v.udp;
  queued = q;
}

timed-IsDatagram :
    (fd : ℕ) (c : RouterProtocol) (now : ℕ)
    → IsDatagram fd c
    → IsDatagram fd (record c { base = set_last_message_time c.base now })
unfolding set_last_message_time
timed-IsDatagram fd c now v =
    IsDatagram-base fd c (set_last_message_time c.base now) v (refl, refl)
      (record { attached = v.queued.attached; drained = v.queued.drained })

completed-IsDatagram :
    (fd : ℕ) (c : RouterProtocol)
    → IsDatagram fd c
    → IsDatagram fd (record c { base = set_handshake_completed c.base })
unfolding set_handshake_completed
completed-IsDatagram fd c v =
    IsDatagram-base fd c (set_handshake_completed c.base) v (refl, refl)
      (record { attached = v.queued.attached; drained = v.queued.drained })

module _ {W : Type 0} (sys : Sys W) (tls : Tls W) (d : DataPacker) (udp_buffer : ℕ) (host : Host W)
    (clock : W → ℕ) (sent : ℕ → W → Bytes) (writes : WriteLaws sys sent)
    (tls_laws : TlsLaws sys tls) where
  abbrev ses : Session RouterProtocol W
  ses = sessions sys tls d udp_buffer host

  abbrev Held : ConnectManager RouterProtocol → Type 0
  Held m = HoldsAll IsDatagram m

  close-Serves :
      (fd : ℕ) (c : RouterProtocol) (m : ConnectManager RouterProtocol) (w : W)
      → IsDatagram fd c
      → Held m
      → ServesOr IsDatagram ⊥ (silently (ses.close c m w))
  close-Serves fd c m w v s =
      close_at_holding sys tls d udp_buffer host IsDatagram c m.connects w m.locked v.queued s.free
        s.is_map (delete-AllEntries IsDatagram c.fd m.connects s.all)

  react-Serves :
      (r : Reaction) (fd : ℕ) (c : RouterProtocol) (m : ConnectManager RouterProtocol) (w : W)
      → is_code r ≡ false
      → IsDatagram fd c
      → Held m
      → ServesOr IsDatagram ⊥ (react sys ses r fd c m w)
  unfolding react
  react-Serves hang_up fd c m w h v s = close-Serves fd c m w v s
  react-Serves (close_with n) fd c m w h v s = cc
  react-Serves if_udp fd c m w h v s =
      choose (ServesOr IsDatagram ⊥) c.is_udp (close-Serves fd c m w v s) s

  after_decode-Serves :
      (fd : ℕ) (o : Outcome Message) (c : RouterProtocol) (m : ConnectManager RouterProtocol)
      (w : W)
      → Ends o
      → outcome_code o ≡ false
      → IsDatagram fd c
      → Held m
      → ServesOr IsDatagram ⊥ (after_decode sys ses clock fd o c m w)
  unfolding after_decode
  after_decode-Serves fd nothing c m w ends h v s = refresh-HoldsAll IsDatagram fd c m v s
  after_decode-Serves fd (packet msg) c m w ends h v s =
      choose (ServesOr IsDatagram ⊥) (leb (Message.len msg) 0 && not (Message.is_websocket msg))
        (refresh-HoldsAll IsDatagram fd c m v s)
        (refresh-HoldsAll IsDatagram fd _ m (timed-IsDatagram fd c (clock w) v) s)
  after_decode-Serves fd (fail e) c m w ends h v s =
      react-Serves (reaction e) fd c (refresh fd c m) w h v (refresh-HoldsAll IsDatagram fd c m v s)
  after_decode-Serves fd crash c m w ends h v s = ends
  after_decode-Serves fd stuck c m w ends h v s = ends

  received :
      (fd : ℕ) (c : RouterProtocol) (m : ConnectManager RouterProtocol) (w : W)
      → outcome_code (receive_from_udp sys tls (default_packer d) udp_buffer c w).0 ≡ false
      → IsDatagram fd c
      → Held m
      → let (o, c', w') = receive_from_udp sys tls (default_packer d) udp_buffer c w in
        ServesOr IsDatagram ⊥ (after_decode sys ses clock fd o c' m w')
  unfolding receive_from_udp
  received fd c m w h v s =
      let ends = received-Ends sys tls d udp_buffer c w in
      let (o, c', w') = receive_from_udp sys tls (default_packer d) udp_buffer c w in
      after_decode-Serves fd o c' m w' ends h v s

  decode-Serves :
      (fd : ℕ) (c : RouterProtocol) (m : ConnectManager RouterProtocol) (w : W)
      → IsDatagram fd c
      → Held m
      → ServesOr IsDatagram ⊥ (decode sys ses clock fd c m w)
  unfolding decode
  decode-Serves fd c m w v s =
      let same = on_udp sys tls d udp_buffer enough c w v.udp (omega arith) in
      let code =
        decode_packet-code sys tls d udp_buffer
          (read_data-ReadsCodeless sys tls tls_laws.read_codeless) enough c w in
      subst
        (λ (r : Outcome Message × RouterProtocol × W).
          ServesOr IsDatagram ⊥ (after_decode sys ses clock fd r.0 r.1 m r.2))
        (sym same) (received fd c m w (sym (ap (λ r. outcome_code r.0) same) ∙ code) v s)

  written :
      (fd : ℕ) (c : RouterProtocol) (w : W)
      → IsDatagram fd c
      → let (r, c', w') = ses.proceed_write c w in
        ((e : Option Error) × (r ≡ returns e)) × IsDatagram fd c'
  written fd c w v =
      let (r, base', w') = proceed_write sys c.base w in
      let (_, q, back) = proceed_write-Keeps sys sent writes c.base w v.queued in
      (back, IsDatagram-base fd c base' v (proceed_write-SameSocket sys c.base w) q)

  pub datagram_serving : Serving sys ses clock IsDatagram (λ c m w. ⊥)
  datagram_serving = record {
    closes = close-Serves;
    decodes = decode-Serves;
    shakes = λ fd c w v.
        IsDatagram-base fd c _ v (tls_laws.same_fd c.base w, tls_laws.same_udp c.base w)
          (tls_laws.queued c.base w v.queued);
    completes = completed-IsDatagram;
    writes = written;
  }

  -- Wait, for any number of turns of its loop, on a manager whose lock is free and that holds datagram
  -- connections, one for each descriptor and each under its own, each of which belongs to a poller and
  -- waits for a writable socket if it has bytes left: the loop neither panics nor waits for ever on the
  -- lock, whatever the events, the datagrams, the writes and the errors are, and the manager is still
  -- such.
  pub wait_serves_datagrams :
      (epoll_wait : ℕ → W → WaitResult × W) (turns : ℕ) (p : Poller)
      (m : ConnectManager RouterProtocol) (w : W)
      → HoldsAll IsDatagram m
      → ServesRound IsDatagram ⊥ (wait sys ses clock epoll_wait turns p m w)
  wait_serves_datagrams =
      wait-Serves sys ses clock IsDatagram (λ c m w. ⊥) datagram_serving ⊥ (λ c m w none. none)
