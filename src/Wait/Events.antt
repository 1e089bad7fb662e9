-- ===== src/Wait/Events.antt =====
-- eventloop/epoll.go over server/router.go: a poller handles any events of TCP connections without a
-- panic, and the connections stay served.
use netman.Common.{ℕ, ◌≡◌, Option, Bytes}
use netman.Errors.{Error}
use netman.Kernel.{Sys, Event, returns}
use netman.Epoll.{Poller}
use netman.Host.{Host}
use netman.Util.DataPack.{DataPacker}
use netman.Connect.{proceed_write}
use netman.Connect.Tls.{Tls, read_data}
use netman.Connect.Order.{WriteLaws}
use netman.Connect.Proceed.{proceed_write-Keeps}
use netman.Manager.{ConnectManager}
use netman.Router.{RouterProtocol, decode_packet}
use netman.Router.Layout.{default_packer}
use netman.Router.Stream.{StreamLaws}
use netman.Router.Stream.Sound.{decode_packet-Sound}
use netman.Router.Stream.Delivery.{enough, want-enough}
use netman.Wait.{Session, decode, handle}
use netman.Wait.Frame.{read_data-Keeps, decode_packet-Keeps}
use netman.Wait.Codes.{read_data-ReadsCodeless, decode_packet-code}
use netman.Wait.Served.{
  IsServed, IsServing, Serves, TlsLaws, sessions, close-Serves, IsServing-IsServingBut,
}
use netman.Wait.Decoded.{after_decode-Serves, set_handshake_completed-IsServed}
use netman.Connect.Socket.{proceed_write-SameSocket}
use netman.Wait.Steps.{IsServed-base}
use netman.Wait.Serving.{Serving}
use netman.Wait.Serving.Loop.{event-Serves}

module _ {W : Type 0} (sys : Sys W) (tls : Tls W) (d : DataPacker) (udp_buffer : ℕ) (host : Host W)
    (clock : W → ℕ) (sent incoming : ℕ → W → Bytes) (writes : WriteLaws sys sent)
    (reads : StreamLaws (read_data sys tls) incoming) (tls_laws : TlsLaws sys tls) where
  abbrev poller_session : Session RouterProtocol W
  poller_session = sessions sys tls d udp_buffer host

  decode-Serves :
      (fd : ℕ) (c : RouterProtocol) (m : ConnectManager RouterProtocol) (w : W)
      → IsServed fd c
      → IsServing m
      → Serves (decode sys poller_session clock fd c m w)
  unfolding decode
  decode-Serves fd c m w v s =
      let p = default_packer d in
      let (o, c', w') = decode_packet sys tls p udp_buffer enough c w in
      after_decode-Serves sys tls d udp_buffer host (incoming c.fd) clock fd o c c' m w w' v
        (decode_packet-Sound sys tls d udp_buffer incoming reads enough c w v.tcp v.valid
          (want-enough c v.valid))
        (decode_packet-Keeps sys tls p udp_buffer (read_data-Keeps sys tls tls_laws.read_keeps)
          enough c w)
        (decode_packet-code sys tls d udp_buffer
          (read_data-ReadsCodeless sys tls tls_laws.read_codeless) enough c w)
        s

  written :
      (fd : ℕ) (c : RouterProtocol) (w : W)
      → IsServed fd c
      → let (r, c', w') = poller_session.proceed_write c w in
        ((e : Option Error) × (r ≡ returns e)) × IsServed fd c'
  written fd c w v =
      let (r, base', w') = proceed_write sys c.base w in
      let (_, q, back) = proceed_write-Keeps sys sent writes c.base w v.queued in
      (back, IsServed-base fd c base' v (proceed_write-SameSocket sys c.base w) q)

  -- The connections of server/router.go are served, with no reason for a panic.
  pub router_serving : Serving sys poller_session clock IsServed (λ c m w. ⊥)
  router_serving = record {
    closes = λ fd c m w v s.
        close-Serves sys tls d udp_buffer host fd c m w v.queued v.under
          (IsServing-IsServingBut fd m s);
    decodes = decode-Serves;
    shakes = λ fd c w v.
        IsServed-base fd c _ v (tls_laws.same_fd c.base w, tls_laws.same_udp c.base w)
          (tls_laws.queued c.base w v.queued);
    completes = set_handshake_completed-IsServed;
    writes = written;
  }

  pub handle-Serves :
      (p : Poller) (ev : Event) (m : ConnectManager RouterProtocol) (w : W)
      → IsServing m
      → Serves (handle sys poller_session clock p ev m w)
  handle-Serves =
      event-Serves sys poller_session clock IsServed (λ c m w. ⊥) router_serving ⊥
        (λ c m w none. none)
