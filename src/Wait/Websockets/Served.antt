-- ===== src/Wait/Websockets/Served.antt =====
-- eventloop/epoll.go over server/websocket.go: a poller handles any event of websocket connections, and
-- panics only where DecodePacket makes a slice that the runtime cannot make.
use netman.Common.{
  ℕ, ◌<◌, ◌≡◌, refl, ap, subst, Bool, not, ◌&&◌, Option, none, some, Bytes, leb, choose,
}
use netman.Errors.{Errno, Outcome, nothing, packet, fail, crash, stuck}
use netman.Kernel.{Sys, Call, returns, panics}
use netman.Host.{Host}
use netman.Util.Message
use netman.Util.Message.{Message}
use netman.Connect.{set_handshake_completed, set_last_message_time}
use netman.Connect.Tls.{Tls, read_data}
use netman.Connect.Order.{WriteLaws}
use netman.Connect.Returns.{Returned}
use netman.Manager.{◌>>=◌}
use netman.Router.Stream.{StreamLaws}
use netman.Websocket.{WebsocketProtocol}
use netman.Websocket.Handshake.{Handshake}
use netman.Websocket.Control as Control
use netman.Websocket.Decode as Decode
use netman.Websocket.Safe.{Safe, Holds}
use netman.Websocket.Safe.Control.{close-ClosedOpen, close_code-ClosedOpen}
use netman.Websocket.Safe.Decode.{decode_packet-Safe}
use netman.Wait.{
  Session, Handled, Reaction, hang_up, close_with, if_udp, reaction, react, decode, after_decode,
  refresh, silently,
}
use netman.Wait.Websockets.{
  Managed, Shared, beside, managing, closing, decoded, reason, websocket_session,
}
use netman.Wait.Serving.{ServesOr, refresh-HoldsAll}
use netman.Wait.Websockets.Shared.{HeldAt, IsOpenAt, IsManaging, IsShared, TlsShares, shared-Holds}

module _ {W : Type 0} (sys : Sys W) (tls : Tls (Shared W)) (host : Host W)
    (utf8_valid : Bytes → Bool) (max_slice : ℕ) (hs : Handshake) where
  abbrev pub ses : Session WebsocketProtocol W
  ses = websocket_session sys tls host utf8_valid max_slice hs

  abbrev pub decode_shared :
      WebsocketProtocol → Shared W → Outcome Message × WebsocketProtocol × Shared W
  decode_shared c s =
      Decode.decode_packet (beside sys) tls (managing host) utf8_valid max_slice hs c s

  -- DecodePacket panics on this connection, where a payload is longer than the runtime's longest slice.
  abbrev pub LongFrom : WebsocketProtocol → Managed → W → Type 0
  LongFrom c m w =
      (c' : WebsocketProtocol) × (s' : Shared W) × (decode_shared c (some m, w) ≡ (crash, c', s'))
      × (max_slice < c'.fragment_length)

module _ {W : Type 0} (sys : Sys W) (tls : Tls (Shared W)) (host : Host W)
    (utf8_valid : Bytes → Bool) (max_slice : ℕ) (hs : Handshake) (clock : W → ℕ)
    (sent : ℕ → W → Bytes) (incoming : ℕ → Shared W → Bytes) (writes : WriteLaws sys sent)
    (reads : StreamLaws (read_data (beside sys) tls) incoming) (laws : TlsShares sys tls)
    (P : Type 0) where
  abbrev session : Session WebsocketProtocol W
  session = websocket_session sys tls host utf8_valid max_slice hs

  abbrev Serves : Handled WebsocketProtocol W → Type 0
  Serves r = ServesOr IsOpenAt P r

  abbrev holds : (fd : ℕ) → Holds (beside sys) tls (managing host) (HeldAt fd) IsShared
  holds fd = shared-Holds sys tls host fd sent incoming writes reads laws

  closing-Serves :
      (r : Call (Option Errno)) (c : WebsocketProtocol) (o : Option Managed) (w : W)
      → Returned r
      → (m : Managed) × (o ≡ some m) × IsManaging m
      → Serves (silently (closing (r, c, (o, w))))
  closing-Serves panics c o w back good = elim back [ ]
  closing-Serves (returns e) c none w back (m, at, v) = cc
  closing-Serves (returns e) c (some m') w back (m, at, v) = subst IsManaging (cc) v

  shared : (m : Managed) (w : W) → IsManaging m → IsShared (some m, w)
  shared m w v = (m, refl, v)

  pub close-Serves :
      (fd : ℕ) (c : WebsocketProtocol) (m : Managed) (w : W)
      → IsOpenAt fd c
      → IsManaging m
      → Serves (silently (session.close c m w))
  close-Serves fd c m w (held, v) s =
      let (r, c', s') = Control.close (beside sys) tls (managing host) c (some m, w) in
      let done =
        close-ClosedOpen (beside sys) tls (managing host) (HeldAt fd) IsShared (holds fd) c
          (some m, w) (held, v, shared m w s) in
      closing-Serves r c' s'.0 s'.1 done.0 done.1.2

  close_code-Serves :
      (fd code : ℕ) (c : WebsocketProtocol) (m : Managed) (w : W)
      → IsOpenAt fd c
      → IsManaging m
      → Serves (silently (session.close_code c code m w))
  close_code-Serves fd code c m w (held, v) s =
      let (r, c', s') =
        Control.close_code (beside sys) tls (managing host) c code (reason code) (some m, w) in
      let done =
        close_code-ClosedOpen (beside sys) tls (managing host) (HeldAt fd) IsShared (holds fd) c
          code (reason code) (some m, w) (held, v, shared m w s) in
      closing-Serves r c' s'.0 s'.1 done.0 done.1.2

  react-Serves :
      (r : Reaction) (fd : ℕ) (c : WebsocketProtocol) (m : Managed) (w : W)
      → IsOpenAt fd c
      → IsManaging m
      → Serves (react sys session r fd c m w)
  unfolding react
  react-Serves hang_up fd c m w v s = close-Serves fd c m w v s
  react-Serves (close_with code) fd c m w v s = close_code-Serves fd code c m w v s
  react-Serves if_udp fd c m w v s = choose Serves c.is_udp (close-Serves fd c m w v s) s

  timed-IsOpenAt :
      (fd : ℕ) (c : WebsocketProtocol) (now : ℕ)
      → IsOpenAt fd c
      → IsOpenAt fd (record c { base = set_last_message_time c.base now })
  unfolding set_last_message_time
  timed-IsOpenAt fd c now ((at, q), v) =
      ((at, record { attached = q.attached; drained = q.drained }), v)

  pub completed-IsOpenAt :
      (fd : ℕ) (c : WebsocketProtocol)
      → IsOpenAt fd c
      → IsOpenAt fd (record c { base = set_handshake_completed c.base })
  unfolding set_handshake_completed
  completed-IsOpenAt fd c ((at, q), v) =
      ((at, record { attached = q.attached; drained = q.drained }), v)

  refreshed :
      (fd : ℕ) (c : WebsocketProtocol) (m : Managed)
      → IsOpenAt fd c
      → IsManaging m
      → IsManaging (refresh fd c m)
  refreshed fd c m = refresh-HoldsAll IsOpenAt fd c m

  decoded-Serves :
      (fd : ℕ) (c : WebsocketProtocol) (o : Outcome Message) (m : Managed) (w : W)
      → (o ≡ crash → max_slice < c.fragment_length → P)
      → Safe (HeldAt fd) IsShared max_slice (o, c, (some m, w))
      → Serves (after_decode sys session clock fd o c m w)
  unfolding after_decode
  decoded-Serves fd c nothing m w long (held, v, (m', at, good)) =
      refreshed fd c m (held, v) (subst IsManaging (cc) good)
  decoded-Serves fd c (packet msg) m w long (held, v, (m', at, good)) =
      let s : IsManaging m = subst IsManaging (cc) good in
      let c' = session.set_last_message_time c (clock w) in
      choose Serves (leb (Message.len msg) 0 && not (Message.is_websocket msg))
        (refreshed fd c m (held, v) s)
        (refreshed fd c' m (timed-IsOpenAt fd c (clock w) (held, v)) s)
  decoded-Serves fd c (fail x) m w long (held, v, (m', at, good)) =
      let s : IsManaging m = subst IsManaging (cc) good in
      react-Serves (reaction x) fd c (refresh fd c m) w (held, v) (refreshed fd c m (held, v) s)
  decoded-Serves fd c crash m w long h = long refl h.0
  decoded-Serves fd c stuck m w long h = elim h [ ]

  of_shared-Serves :
      (fd : ℕ) (c : WebsocketProtocol) (o : Outcome Message) (om : Option Managed) (w : W)
      → (o ≡ crash → max_slice < c.fragment_length → P)
      → Safe (HeldAt fd) IsShared max_slice (o, c, (om, w))
      → Serves (
          decoded (o, c, (om, w)) >>= λ (o, c', m', w').
          after_decode sys session clock fd o c' m' w')
  of_shared-Serves fd c o (some m) w long h = decoded-Serves fd c o m w long h
  of_shared-Serves fd c nothing none w long (held, v, (m, at, good)) = cc
  of_shared-Serves fd c (packet msg) none w long (held, v, (m, at, good)) = cc
  of_shared-Serves fd c (fail x) none w long (held, v, (m, at, good)) = cc
  of_shared-Serves fd c crash none w long (_, (m, at, good)) = cc
  of_shared-Serves fd c stuck none w long h = h

  pub decode-Serves :
      (fd : ℕ) (c : WebsocketProtocol) (m : Managed) (w : W)
      → (LongFrom sys tls host utf8_valid max_slice hs c m w → P)
      → IsOpenAt fd c
      → IsManaging m
      → Serves (decode sys session clock fd c m w)
  unfolding decode
  decode-Serves fd c m w long (held, v) s =
      let (o, c', s') = decode_shared sys tls host utf8_valid max_slice hs c (some m, w) in
      of_shared-Serves fd c' o s'.0 s'.1 (λ e more. long (c', s', ap (λ o. (o, c', s')) e, more))
        (decode_packet-Safe (beside sys) tls (managing host) utf8_valid max_slice hs (HeldAt fd)
          IsShared (holds fd) c (some m, w) (held, v, shared m w s))
