-- ===== src/Server/Safety.antt =====
-- A running server over server/router.go: in no order of its goroutines' calls does one panic or wait
-- for ever on the manager's lock.
use netman.Common.{ℕ, ◌≡◌, refl, subst, Option, Bytes}
use netman.Common.Int.{ℤ}
use netman.Errors.{Errno, Error}
use netman.Kernel.{Sys, Net, Event, wait_failed, Call}
use netman.Epoll.{Poller}
use netman.Host.{Host}
use netman.EventLoop.{EventLoop}
use netman.Connect.{BaseConnect}
use netman.Connect.Tls.{Tls, read_data}
use netman.Connect.Order.{WriteLaws}
use netman.Util.DataPack.{DataPacker}
use netman.Manager.{
  ConnectManager, Ended, ended, blocked, panicked, heartbeat_tick, new_connect_manager,
}
use netman.Dispatch.{router_mode}
use netman.Router.{RouterProtocol}
use netman.Router.Stream.{StreamLaws}
use netman.Router.ClearAll.{router_connect}
use netman.Acceptor.{Acceptor, AcceptOptions, Protocols, Next, on_event}
use netman.Acceptor.Serves.{router_protocols, Registers}
use netman.Acceptor.Listening.{ServesNext, on_event-ServesNext}
use netman.Server.Live.{
  Step, accepts, polls, leaves, beats, sends, elsewhere, Reachable, at_first, after,
}
use netman.Server.Created.{new_connect_manager-IsServing}
use netman.Server.Beats.{ServesBeat, beat-ServesBeat}
use netman.Server.Sends.{TlsWriteLaws, send-IsServed}
use netman.Wait.{Session, Handled, Round, handle, after_wait}
use netman.Wait.Served.{IsServed, IsServing, Serves, refresh-IsServing, TlsLaws, sessions}
use netman.Manager.Entries.{lookup-AllEntries}
use netman.Wait.Events.{handle-Serves}
use netman.Wait.Turns.{ServesRound, after_wait-ServesRound}

-- A call that returns.
abbrev pub Returns : {A : Type 0} → Ended A → Type 0
Returns {A} r = (x : A) × (r ≡ ended x)

module _ {W : Type 0} where
  ServesNext-Returns :
      (r : Ended (Next × Acceptor × ConnectManager RouterProtocol × W)) → ServesNext r → Returns r
  ServesNext-Returns (ended x) h = (x, refl)
  ServesNext-Returns blocked h = elim h [ ]
  ServesNext-Returns panicked h = elim h [ ]

  Serves-Returns : (r : Handled RouterProtocol W) → Serves r → Returns r
  Serves-Returns (ended x) h = (x, refl)
  Serves-Returns blocked h = elim h [ ]
  Serves-Returns panicked h = elim h [ ]

  ServesRound-Returns : (r : Ended (Round RouterProtocol W)) → ServesRound r → Returns r
  ServesRound-Returns (ended x) h = (x, refl)
  ServesRound-Returns blocked h = elim h [ ]
  ServesRound-Returns panicked h = elim h [ ]

  ServesBeat-Returns : (r : Ended (ConnectManager RouterProtocol × W)) → ServesBeat r → Returns r
  ServesBeat-Returns (ended x) h = (x, refl)
  ServesBeat-Returns blocked h = elim h [ ]
  ServesBeat-Returns panicked h = elim h [ ]

module _ {W : Type 0} (sys : Sys W) (net : Net W) (tls : Tls W) (d : DataPacker) (udp_buffer : ℕ)
    (host : Host W) (websocket : BaseConnect → RouterProtocol) (options : AcceptOptions)
    (clock : W → ℕ) (loop : EventLoop) (sent incoming : ℕ → W → Bytes) (writes : WriteLaws sys sent)
    (reads : StreamLaws (read_data sys tls) incoming) (tls_laws : TlsLaws sys tls)
    (tls_writes : TlsWriteLaws sys tls) (mode : options.application ≡ router_mode)
    (reg : Registers sys loop) where
  abbrev session : Session RouterProtocol W
  session = sessions sys tls d udp_buffer host

  abbrev protocols : Protocols RouterProtocol W
  protocols = router_protocols sys host websocket

  Step-IsServing :
      (s s' : Acceptor × ConnectManager RouterProtocol × W)
      → Step sys net tls d udp_buffer host websocket options clock loop s s'
      → IsServing s.1
      → IsServing s'.1
  Step-IsServing _ _ (accepts ev n a a' m m' w w' e) v =
      subst ServesNext e
        (on_event-ServesNext sys net host websocket options clock loop mode reg ev a m w v)
  Step-IsServing _ _ (polls p ev o a m m' w w' e) v =
      subst Serves e (
        handle-Serves sys tls d udp_buffer host clock sent incoming writes reads tls_laws p ev m w
          v)
  Step-IsServing _ _ (leaves p x ms a m m' w w' e) v = subst ServesRound e (
      after_wait-ServesRound sys tls d udp_buffer host clock sent incoming writes reads tls_laws p
        (wait_failed x) m w v)
  Step-IsServing _ _ (beats now idle a m m' w w' e) v =
      subst ServesBeat e (beat-ServesBeat sys host now idle m w v)
  Step-IsServing _ _ (sends k msg_id bs c c' r a m w w' found e) v =
      refresh-IsServing k c' m
        (subst (λ (x : Call (ℤ × Option Error) × RouterProtocol × W). IsServed k x.1) e
          (send-IsServed sys tls d udp_buffer sent writes tls_writes k c msg_id bs w
            (lookup-AllEntries IsServed k c m.connects v.all found)))
        v
  Step-IsServing _ _ (elsewhere a m w w') v = v

  Reachable-IsServing :
      (first s : Acceptor × ConnectManager RouterProtocol × W)
      → IsServing first.1
      → Reachable sys net tls d udp_buffer host websocket options clock loop first s
      → IsServing s.1
  Reachable-IsServing first _ v at_first = v
  Reachable-IsServing first _ v (after s s' r step) =
      Step-IsServing s s' step (Reachable-IsServing first s v r)

  -- A server in router mode, with a poller for every id, registrations that succeed and default packets,
  -- that starts with an empty manager whose lock is free. In every state that it reaches by events of
  -- the acceptor and of the pollers, failures of epoll_wait, heartbeats, calls of Send and changes of
  -- the world, in any order: the connections are served, and the acceptor's and the pollers' next
  -- event, a failure of epoll_wait and the next heartbeat each return, without a panic and without a
  -- wait for ever on the manager's lock.
  pub live_server :
      (a₀ a : Acceptor) (m : ConnectManager RouterProtocol) (w₀ w : W)
      → Reachable sys net tls d udp_buffer host websocket options clock loop
          (a₀, new_connect_manager, w₀)
          (a, m, w)
      → IsServing m
        × ((ev : Event) → Returns (on_event sys net protocols options clock loop ev a m w))
        × ((p : Poller) (ev : Event) → Returns (handle sys session clock p ev m w))
        × ((p : Poller) (e : Errno) → Returns (after_wait sys session clock p (wait_failed e) m w))
        × ((now idle : ℕ) → Returns (heartbeat_tick sys (router_connect sys host) now idle m w))
  live_server a₀ a m w₀ w r =
      let v =
        Reachable-IsServing (a₀, new_connect_manager, w₀) (a, m, w) new_connect_manager-IsServing
          r in
      (
        v,
        λ ev.
            ServesNext-Returns _
              (on_event-ServesNext sys net host websocket options clock loop mode reg ev a m w v),
        λ p ev. Serves-Returns _ (
            handle-Serves sys tls d udp_buffer host clock sent incoming writes reads tls_laws p ev m
              w v),
        λ p e. ServesRound-Returns _ (
            after_wait-ServesRound sys tls d udp_buffer host clock sent incoming writes reads
              tls_laws p (wait_failed e) m w v),
        λ now idle. ServesBeat-Returns _ (beat-ServesBeat sys host now idle m w v),
      )
