-- ===== src/Server/Live.antt =====
-- server/acceptor_linux.go, eventloop/epoll.go and server/connectmgr.go together: the goroutines of a
-- running server, one call at a time in any order.
use netman.Common.{ℕ, ◌≡◌, Option, some, List, Bytes}
use netman.Common.Int.{ℤ}
use netman.Errors.{Errno, Error}
use netman.Kernel.{Sys, Net, Event, wait_failed, Call}
use netman.Epoll.{Poller}
use netman.Host.{Host}
use netman.EventLoop.{EventLoop}
use netman.Connect.{BaseConnect}
use netman.Connect.Tls.{Tls}
use netman.Util.Message.{Message}
use netman.Util.DataPack.{DataPacker}
use netman.Manager.{ConnectManager, Ended, ended, heartbeat_tick, lookup}
use netman.Router.{RouterProtocol, send}
use netman.Router.Layout.{default_packer}
use netman.Router.ClearAll.{router_connect}
use netman.Acceptor.{Acceptor, AcceptOptions, Protocols, Next, on_event}
use netman.Acceptor.Serves.{router_protocols}
use netman.Wait.{Session, left, handle, after_wait, refresh}
use netman.Wait.Served.{sessions}

module _ {W : Type 0} (sys : Sys W) (net : Net W) (tls : Tls W) (d : DataPacker) (udp_buffer : ℕ)
    (host : Host W) (websocket : BaseConnect → RouterProtocol) (options : AcceptOptions)
    (clock : W → ℕ) (loop : EventLoop) where
  abbrev pub live_session : Session RouterProtocol W
  live_session = sessions sys tls d udp_buffer host

  abbrev pub live_protocols : Protocols RouterProtocol W
  live_protocols = router_protocols sys host websocket

  -- The acceptor's goroutine handles an event; a poller's handles one, or its epoll_wait fails; the
  -- heartbeat ticks; or the world changes, as peers send and the application's goroutines run.
  pub data Step
      : Acceptor × ConnectManager RouterProtocol × W
        → Acceptor × ConnectManager RouterProtocol × W
        → Type 0 where
    accepts :
        (ev : Event) (n : Next) (a a' : Acceptor) (m m' : ConnectManager RouterProtocol) (w w' : W)
        → on_event sys net live_protocols options clock loop ev a m w ≡ ended (n, a', m', w')
        → Step (a, m, w) (a', m', w')
    polls :
        (p : Poller) (ev : Event) (sent : Option (RouterProtocol × Message)) (a : Acceptor)
        (m m' : ConnectManager RouterProtocol) (w w' : W)
        → handle sys live_session clock p ev m w ≡ ended (sent, m', w')
        → Step (a, m, w) (a, m', w')
    leaves :
        (p : Poller) (e : Errno) (sent : List (RouterProtocol × Message)) (a : Acceptor)
        (m m' : ConnectManager RouterProtocol) (w w' : W)
        → after_wait sys live_session clock p (wait_failed e) m w ≡ ended (left sent m' w')
        → Step (a, m, w) (a, m', w')
    beats :
        (now idle : ℕ) (a : Acceptor) (m m' : ConnectManager RouterProtocol) (w w' : W)
        → heartbeat_tick sys (router_connect sys host) now idle m w ≡ ended (m', w')
        → Step (a, m, w) (a, m', w')
    sends :
        (k msg_id : ℕ) (bs : Bytes) (c c' : RouterProtocol) (r : Call (ℤ × Option Error))
        (a : Acceptor) (m : ConnectManager RouterProtocol) (w w' : W)
        → lookup k m.connects ≡ some c
        → send sys tls (default_packer d) udp_buffer c msg_id bs w ≡ (r, c', w')
        → Step (a, m, w) (a, refresh k c' m, w')
    elsewhere :
        (a : Acceptor) (m : ConnectManager RouterProtocol) (w w' : W) → Step (a, m, w) (a, m, w')

  -- The states that a server comes to from its first.
  pub data Reachable (first : Acceptor × ConnectManager RouterProtocol × W)
      : Acceptor × ConnectManager RouterProtocol × W → Type 0 where
    at_first : Reachable first first
    after :
        (s s' : Acceptor × ConnectManager RouterProtocol × W)
        → Reachable first s
        → Step s s'
        → Reachable first s'

  -- A call that returns.
  abbrev pub Returns : {A : Type 0} → Ended A → Type 0
  Returns {A} r = (x : A) × (r ≡ ended x)
