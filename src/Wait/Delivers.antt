-- ===== src/Wait/Delivers.antt =====
-- eventloop/epoll.go over server/router.go: what a readable event hands to the workers.
use netman.Common.{
  ℕ, ◌≡◌, refl, sym, ap, subst, ◌∙◌, inl, inr, false, not, ◌&&◌, some, Bytes, leb, arith,
  Bool-cases, prove_then, prove_else,
}
use netman.Errors.{Outcome, nothing, packet, fail, crash, stuck}
use netman.Kernel.{Sys, Event}
use netman.Epoll.{Poller}
use netman.Host.{Host}
use netman.Util.Message
use netman.Util.Message.{Message}
use netman.Util.DataPack.{DataPacker}
use netman.Connect.{set_last_message_time}
use netman.Connect.Tls.{Tls, read_data}
use netman.Manager.{ConnectManager, ◌>>=◌, of_lock, get, lookup}
use netman.Router.{RouterProtocol, decode_packet}
use netman.Router.Layout.{default_packer}
use netman.Router.Stream.{StreamLaws, Sound}
use netman.Router.Stream.Sound.{decode_packet-Sound}
use netman.Router.Stream.Delivery.{enough, want-enough}
use netman.Wait.{
  Session, reaction, react, after_decode, decode, on_readable, on_event, handle, refresh,
}
use netman.Wait.Frame.{Keeps, read_data-Keeps, decode_packet-Keeps}
use netman.Wait.Codes.{outcome_code, read_data-ReadsCodeless, decode_packet-code}
use netman.Wait.Served.{IsServed, IsServing, TlsLaws, sessions}
use netman.Manager.Entries.{lookup-AllEntries}
use netman.Wait.Steps.{Keeps-IsQueued}
use netman.Wait.Handed.{Handed, lookup-refresh, close_refreshed-Handed, react-Handed}
use netman.Wait.Decoded.{closes-hang_up}

module _ {W : Type 0} (sys : Sys W) (tls : Tls W) (d : DataPacker) (udp_buffer : ℕ) (host : Host W)
    (incoming : W → Bytes) (clock : W → ℕ) where
  abbrev ses : Session RouterProtocol W
  ses = sessions sys tls d udp_buffer host

  after_decode-Handed :
      (fd : ℕ) (o : Outcome Message) (c c' : RouterProtocol) (m : ConnectManager RouterProtocol)
      (w w' : W)
      → IsServed fd c
      → lookup fd m.connects ≡ some c
      → Sound incoming c w (o, c', w')
      → Keeps c.base c'.base
      → outcome_code o ≡ false
      → IsServing m
      → Handed incoming clock fd c w (after_decode sys ses clock fd o c' m w')
  unfolding after_decode react Message.len Message.is_websocket set_last_message_time
  after_decode-Handed fd nothing c c' m w w' v found sound k h s =
      inr (c', lookup-refresh fd c' c m found, inl sound.1)
  after_decode-Handed fd (packet msg) c c' m w w' v found (idle, whole, same, less) k h s =
      let c'' : RouterProtocol = record c' { base = set_last_message_time c'.base (clock w') } in
      elim (Bool-cases (leb msg.data_len 0 && not msg.is_web_socket)) [
        | inl dropped ↦
            prove_then (Handed incoming clock fd c w) (leb msg.data_len 0 && not msg.is_web_socket)
              _ _ dropped (inr (c', lookup-refresh fd c' c m found, inr (msg, ground arith, same)))
        | inr sent ↦
            prove_else (Handed incoming clock fd c w) (leb msg.data_len 0 && not msg.is_web_socket)
              _ _ sent (lookup-refresh fd c'' c m found, refl, λ web. ground arith, whole, same)
      ]
  after_decode-Handed fd (fail e) c c' m w w' v found sound k h s =
      let q = Keeps-IsQueued c.base c'.base k v.queued in
      let at = ap (λ b. b.fd) k ∙ v.under in
      elim sound [
        | inl ends ↦
            subst (λ r. Handed incoming clock fd c w (react sys ses r fd c' (refresh fd c' m) w'))
              (sym (closes-hang_up e ends))
              (close_refreshed-Handed sys tls d udp_buffer host incoming clock fd c c' w m w' q at
                s)
        | inr (valid, same) ↦
            react-Handed sys tls d udp_buffer host incoming clock (reaction e) fd c c' m w w' h
              found q at (ap (λ b. b.is_udp) k ∙ v.tcp) same s
      ]
  after_decode-Handed fd crash c c' m w w' v found sound k h s = sound
  after_decode-Handed fd stuck c c' m w w' v found sound k h s = sound

module _ {W : Type 0} (sys : Sys W) (tls : Tls W) (d : DataPacker) (udp_buffer : ℕ) (host : Host W)
    (incoming : ℕ → W → Bytes) (clock : W → ℕ) (reads : StreamLaws (read_data sys tls) incoming)
    (tls_laws : TlsLaws sys tls) where
  decode-Handed :
      (fd : ℕ) (c : RouterProtocol) (m : ConnectManager RouterProtocol) (w : W)
      → lookup fd m.connects ≡ some c
      → IsServing m
      → Handed
          (incoming fd)
          clock
          fd
          c
          w
          (decode sys (sessions sys tls d udp_buffer host) clock fd c m w)
  unfolding decode
  decode-Handed fd c m w found s =
      let p = default_packer d in
      let v = lookup-AllEntries IsServed fd c m.connects s.all found in
      let (o, c', w') = decode_packet sys tls p udp_buffer enough c w in
      after_decode-Handed sys tls d udp_buffer host (incoming fd) clock fd o c c' m w w' v found
        (subst (λ k. Sound (incoming k) c w (decode_packet sys tls p udp_buffer enough c w)) v.under
          (decode_packet-Sound sys tls d udp_buffer incoming reads enough c w v.tcp v.valid
            (want-enough c v.valid)))
        (decode_packet-Keeps sys tls p udp_buffer (read_data-Keeps sys tls tls_laws.read_keeps)
          enough c w)
        (decode_packet-code sys tls d udp_buffer
          (read_data-ReadsCodeless sys tls tls_laws.read_codeless) enough c w)
        s

  found-Handed :
      (p : Poller) (ev : Event) (c : RouterProtocol) (m : ConnectManager RouterProtocol) (w : W)
      → ev.is_out ≡ false
      → (c.tls_enable && not c.handshake_completed) ≡ false
      → Handed
          (incoming ev.fd)
          clock
          ev.fd
          c
          w
          (decode sys (sessions sys tls d udp_buffer host) clock ev.fd c m w)
      → Handed
          (incoming ev.fd)
          clock
          ev.fd
          c
          w
          (on_event sys (sessions sys tls d udp_buffer host) clock p ev (some c) m w)
  unfolding on_event on_readable
  found-Handed p ev c m w readable done h =
      prove_else (Handed (incoming ev.fd) clock ev.fd c w) ev.is_out _ _ readable (
        prove_else (Handed (incoming ev.fd) clock ev.fd c w)
          (c.tls_enable && not c.handshake_completed) _ _ done h)

  -- A readable event of a connection that is past any TLS handshake, on a manager whose lock is free
  -- and that holds stream connections between two packets or inside one, each attached to a poller
  -- and under its own descriptor: the call returns. It sends a message to the workers only where that
  -- is the next packet of the stream, with its whole body, not empty unless it is a websocket's, and
  -- then the manager holds the connection with the time of the message; without a message the
  -- connection has left the manager, or has lost no byte of its stream, or a packet without a body
  -- was dropped.
  pub handle-Handed :
      (p : Poller) (ev : Event) (c : RouterProtocol) (m : ConnectManager RouterProtocol) (w : W)
      → ev.is_out ≡ false
      → lookup ev.fd m.connects ≡ some c
      → (c.tls_enable && not c.handshake_completed) ≡ false
      → IsServing m
      → Handed
          (incoming ev.fd)
          clock
          ev.fd
          c
          w
          (handle sys (sessions sys tls d udp_buffer host) clock p ev m w)
  unfolding handle get
  handle-Handed p ev c m w readable found done s =
      prove_else
        (λ r.
          Handed (incoming ev.fd) clock ev.fd c w
            (of_lock r >>= λ o. on_event sys (sessions sys tls d udp_buffer host) clock p ev o m w))
        m.locked _ _ s.free
        (subst
          (λ o.
            Handed (incoming ev.fd) clock ev.fd c w
              (on_event sys (sessions sys tls d udp_buffer host) clock p ev o m w))
          (sym found) (found-Handed p ev c m w readable done (decode-Handed ev.fd c m w found s)))
