-- ===== src/Wait/Websockets/Events.antt =====
-- eventloop/epoll.go over server/websocket.go: a poller handles any event of websocket connections, and
-- panics only where DecodePacket makes a slice that the runtime cannot make.
use netman.Common.{ℕ, ◌≡◌, ◌∙◌, Option, none, Bytes, Bool}
use netman.Errors.{Error}
use netman.Kernel.{Sys, Event, WaitResult, returns}
use netman.Epoll.{Poller}
use netman.Host.{Host}
use netman.Connect.Tls.{Tls, read_data}
use netman.Connect.Order.{WriteLaws}
use netman.Connect.Proceed.{proceed_write-Keeps}
use netman.Connect.Socket.{proceed_write-SameSocket}
use netman.Router.Stream.{StreamLaws}
use netman.Websocket.{WebsocketProtocol}
use netman.Websocket.Handshake.{Handshake}
use netman.Wait.{Session, Handled, handle, wait}
use netman.Wait.Websockets.{Managed, Shared, beside, websocket_session}
use netman.Wait.Websockets.Shared.{IsOpenAt, IsManaging, TlsShares}
use netman.Wait.Serving.{ServesOr, EventWhy, Serving, handle-Serves}
use netman.Wait.Serving.Loop.{ServesRound, wait-Serves}
use netman.Wait.Websockets.Served.{LongFrom, close-Serves, completed-IsOpenAt, decode-Serves}

module _ {W : Type 0} (sys : Sys W) (tls : Tls (Shared W)) (host : Host W)
    (utf8_valid : Bytes → Bool) (max_slice : ℕ) (hs : Handshake) where
  abbrev pub session : Session WebsocketProtocol W
  session = websocket_session sys tls host utf8_valid max_slice hs

  abbrev pub Long : WebsocketProtocol → Managed → W → Type 0
  Long c m w = LongFrom sys tls host utf8_valid max_slice hs c m w

  -- A call for the event that returns with such a manager; it may panic for that length, and only in a
  -- readable event of a connection that the manager holds.
  abbrev pub ServesOpen : Event → Managed → W → Handled WebsocketProtocol W → Type 0
  ServesOpen ev m w r = ServesOr IsOpenAt (EventWhy sys session Long ev m w) r

module _ {W : Type 0} (sys : Sys W) (tls : Tls (Shared W)) (host : Host W)
    (utf8_valid : Bytes → Bool) (max_slice : ℕ) (hs : Handshake) (clock : W → ℕ)
    (sent : ℕ → W → Bytes) (incoming : ℕ → Shared W → Bytes) (writes : WriteLaws sys sent)
    (reads : StreamLaws (read_data (beside sys) tls) incoming) (laws : TlsShares sys tls) where
  abbrev here : Session WebsocketProtocol W
  here = session sys tls host utf8_valid max_slice hs

  abbrev LongHere : WebsocketProtocol → Managed → W → Type 0
  LongHere c m w = Long sys tls host utf8_valid max_slice hs c m w

  written :
      (fd : ℕ) (c : WebsocketProtocol) (w : W)
      → IsOpenAt fd c
      → let (r, c', w') = here.proceed_write c w in
        ((e : Option Error) × (r ≡ returns e)) × IsOpenAt fd c'
  written fd c w ((at, queued), v) =
      let (_, q, back) = proceed_write-Keeps sys sent writes c.base w queued in
      (back, (((proceed_write-SameSocket sys c.base w).0 ∙ at, q), v))

  websocket_serving : Serving sys here clock IsOpenAt LongHere
  websocket_serving = record {
    closes =
        close-Serves sys tls host utf8_valid max_slice hs clock sent incoming writes reads laws ⊥;
    decodes = λ fd c m w.
        decode-Serves sys tls host utf8_valid max_slice hs clock sent incoming writes reads laws
          (LongHere c m w) fd c m w (λ long. long);
    shakes = λ fd c w v. (laws.handshake_holds fd c.base (none, w) v.0, v.1);
    completes =
        completed-IsOpenAt sys tls host utf8_valid max_slice hs clock sent incoming writes reads
          laws ⊥;
    writes = written;
  }

  -- A poller that handles an event over a manager with a free lock and one websocket connection for each
  -- descriptor, each with its own descriptor, a poller, its unwritten bytes waiting for a writable
  -- socket, and between two frames or inside one: whatever the peer sends, the handling leaves the
  -- manager such, with no call that waits for ever, or it panics. It panics only in a readable event,
  -- where DecodePacket of that event's connection comes to a payload that is longer than the runtime's
  -- longest slice.
  pub handle-ServesOpen :
      (p : Poller) (ev : Event) (m : Managed) (w : W)
      → IsManaging m
      → ServesOpen sys tls host utf8_valid max_slice hs ev m w (handle sys here clock p ev m w)
  handle-ServesOpen = handle-Serves sys here clock IsOpenAt LongHere websocket_serving

  -- Wait over websocket connections, for any number of turns of its loop: it never waits for ever on the
  -- lock, and where it does not panic the manager is still such.
  pub wait-ServesRound :
      (epoll_wait : ℕ → W → WaitResult × W) (turns : ℕ) (p : Poller) (m : Managed) (w : W)
      → IsManaging m
      → ServesRound IsOpenAt (Unit {0}) (wait sys here clock epoll_wait turns p m w)
  wait-ServesRound =
      wait-Serves sys here clock IsOpenAt LongHere websocket_serving (Unit {0}) (λ c m w long. tt)
