-- ===== src/Udp/Listening.antt =====
-- server/acceptor_udp_linux.go: the loop of the acceptor of a datagram server.
use netman.Common.{ℕ, zero, suc, Option, none, some, List, [], ◌∷◌, ◌++◌, choose, ◌==◌}
use netman.Common.Int.{pos_part}
use netman.Errors.{Errno, eagain, eintr, ebadf, epipe, other}
use netman.Kernel.{Sys, Net, Event, WaitResult, ready, wait_failed}
use netman.Epoll
use netman.Host.{Host}
use netman.EventLoop.{EventLoop}
use netman.Connect.{BaseConnect}
use netman.Util.Message.{Message}
use netman.Manager.{ConnectManager, Ended, ended, blocked, panicked, ◌>>=◌}
use netman.Router.{RouterProtocol}
use netman.Router.Layout.{Packer}
use netman.Acceptor.{
  Acceptor, AcceptOptions, Protocols, Next, go_on, leave, Run, returned, failed, increment_id,
}
use netman.Acceptor.Serves.{router_protocols, Registers}
use netman.Udp.{UdpNet, Made, make_udp_connect}
use netman.Udp.Serves.{Peers, Kept, make_udp_connect-Kept}
use netman.Udp.Turns.{sent_of, on_event, on_events, run_loop, run}

module _ {W : Type 0} where
  -- What the loops return, with such a manager.
  abbrev pub KeptAfter :
      {X : Type 0}
      → Ended (X × List (RouterProtocol × Message) × Acceptor × ConnectManager RouterProtocol × W)
      → Type 0
  KeptAfter (ended (x, sent, a, m, w)) = Peers m
  KeptAfter blocked = ⊥
  KeptAfter panicked = ⊥

  with_sent :
      {X : Type 0} (sent : List (RouterProtocol × Message))
      (r : Ended
        (X × List (RouterProtocol × Message) × Acceptor × ConnectManager RouterProtocol × W))
      → KeptAfter r
      → KeptAfter (r >>= λ (x, rest, a, m, w). ended (x, sent ++ rest, a, m, w))
  with_sent sent (ended (x, rest, a, m, w)) s = s
  with_sent sent blocked s = s
  with_sent sent panicked s = s

  -- The end of a loop's body: it leaves with `x`, or goes on.
  then_next :
      {X : Type 0} (x : X)
      (r : Ended
        (Next × List (RouterProtocol × Message) × Acceptor × ConnectManager RouterProtocol × W))
      (later : Acceptor
        → ConnectManager RouterProtocol
        → W
        → Ended
            (X × List (RouterProtocol × Message) × Acceptor × ConnectManager RouterProtocol × W))
      → KeptAfter r
      → ((a : Acceptor) (m : ConnectManager RouterProtocol) (w : W)
          → Peers m
          → KeptAfter (later a m w))
      → KeptAfter (
          r >>= λ (next, sent, a, m, w). elim next [
            | leave ↦ ended (x, sent, a, m, w)
            | go_on ↦ later a m w >>= λ (y, rest, a', m', w'). ended (y, sent ++ rest, a', m', w')
          ])
  then_next x (ended (leave, sent, a, m, w)) later s h = s
  then_next x (ended (go_on, sent, a, m, w)) later s h = with_sent sent (later a m w) (h a m w s)
  then_next x blocked later s h = s
  then_next x panicked later s h = s

module _ {A W : Type 0} (sys : Sys W) (net : Net W) (udp : UdpNet A W) (host : Host W)
    (websocket : BaseConnect → RouterProtocol) (p : Packer) (options : AcceptOptions)
    (buffer_length : ℕ) (clock : W → ℕ) (loop : EventLoop) (reg : Registers sys loop) where
  abbrev peers : Protocols RouterProtocol W
  peers = router_protocols sys host websocket

  made-KeptAfter :
      (r : Made RouterProtocol W)
      → Kept sys net udp host websocket p options buffer_length clock loop reg r
      → KeptAfter (
          r >>= λ (x, a, m, w).
          ended (go_on, sent_of sys net udp peers p options buffer_length clock loop x, a, m, w))
  made-KeptAfter (ended (x, a, m, w)) s = s
  made-KeptAfter blocked s = s
  made-KeptAfter panicked s = s

  on_event-KeptAfter :
      (ev : Event) (a : Acceptor) (m : ConnectManager RouterProtocol) (w : W)
      → Peers m
      → KeptAfter (on_event sys net udp peers p options buffer_length clock loop ev a m w)
  unfolding on_event
  on_event-KeptAfter ev a m w s = choose KeptAfter (ev.fd == a.eventfd) s (
      made-KeptAfter
        (make_udp_connect sys net udp peers p options buffer_length clock loop ev.fd a m w)
        (make_udp_connect-Kept sys net udp host websocket p options buffer_length clock loop reg
          ev.fd a m w s))

  on_events-KeptAfter :
      (evs : List Event) (a : Acceptor) (m : ConnectManager RouterProtocol) (w : W)
      → Peers m
      → KeptAfter (on_events sys net udp peers p options buffer_length clock loop evs a m w)
  unfolding on_events
  on_events-KeptAfter [] a m w s = s
  on_events-KeptAfter (ev ∷ evs) a m w s =
      then_next leave (on_event sys net udp peers p options buffer_length clock loop ev a m w)
        (on_events sys net udp peers p options buffer_length clock loop evs)
        (on_event-KeptAfter ev a m w s) (on_events-KeptAfter evs)

  abbrev loop_of :
      ℕ
      → Acceptor
      → ConnectManager RouterProtocol
      → W
      → Ended (Run × List (RouterProtocol × Message) × Acceptor × ConnectManager RouterProtocol × W)
  loop_of turns a m w = run_loop sys net udp peers p options buffer_length clock loop turns a m w

  after_turn :
      (turns : ℕ) (r : WaitResult) (a : Acceptor) (m : ConnectManager RouterProtocol) (w : W)
      → Peers m
      → ((a : Acceptor) (m : ConnectManager RouterProtocol) (w : W)
          → Peers m
          → KeptAfter (loop_of turns a m w))
      → KeptAfter (elim r [
        | wait_failed eagain ↦ loop_of turns a m w
        | wait_failed eintr ↦ loop_of turns a m w
        | wait_failed e ↦ ended (failed e, [], a, m, w)
        | ready evs ↦
            on_events sys net udp peers p options buffer_length clock loop evs a m w
            >>= λ (next, sent, a₂, m₂, w₂). elim next [
              | leave ↦ ended (returned, sent, a₂, m₂, w₂)
              | go_on ↦ loop_of turns a₂ m₂ w₂ >>= λ (r', rest, a₃, m₃, w₃).
                  ended (r', sent ++ rest, a₃, m₃, w₃)
            ]
      ])
  after_turn turns (wait_failed eagain) a m w s later = later a m w s
  after_turn turns (wait_failed eintr) a m w s later = later a m w s
  after_turn turns (wait_failed ebadf) a m w s later = s
  after_turn turns (wait_failed epipe) a m w s later = s
  after_turn turns (wait_failed other) a m w s later = s
  after_turn turns (ready evs) a m w s later =
      then_next returned (on_events sys net udp peers p options buffer_length clock loop evs a m w)
        (loop_of turns) (on_events-KeptAfter evs a m w s) later

  run_loop-KeptAfter :
      (turns : ℕ) (a : Acceptor) (m : ConnectManager RouterProtocol) (w : W)
      → Peers m
      → KeptAfter (loop_of turns a m w)
  unfolding run_loop
  run_loop-KeptAfter zero a m w s = s
  run_loop-KeptAfter (suc turns) a m w s =
      let (r, w₁) = net.epoll_wait a.poller.epfd w in
      after_turn turns r a m w₁ s (run_loop-KeptAfter turns)

  watched :
      (e : Option Errno)
      (next : Ended
        (Run × List (RouterProtocol × Message) × Acceptor × ConnectManager RouterProtocol × W))
      (a : Acceptor) (m : ConnectManager RouterProtocol) (w : W)
      → Peers m
      → KeptAfter next
      → KeptAfter (elim e [ some x ↦ ended (failed x, [], a, m, w) | none ↦ next ])
  watched (some x) next a m w s later = s
  watched none next a m w s later = later

  -- Run of the datagram acceptor, for any number of turns of its loop, in router mode, with a poller for
  -- every id and registrations that succeed, on a manager whose lock is free and that holds datagram
  -- connections, one for each descriptor and each under its own, each of which belongs to a poller and
  -- waits for a writable socket if it has bytes left: whatever datagrams come and whatever fails on the
  -- way, it neither panics nor waits for ever on the lock, and the manager is still such.
  pub run-KeptAfter :
      (turns listener : ℕ) (a : Acceptor) (m : ConnectManager RouterProtocol) (w : W)
      → Peers m
      → KeptAfter (run sys net udp peers p options buffer_length clock loop turns listener a m w)
  unfolding run increment_id Epoll.add_read
  run-KeptAfter turns listener a m w s =
      let a₁ = (increment_id a).1 in
      let (e₁, w₁) = Epoll.add_read sys a.poller a.eventfd (pos_part (increment_id a).0) w in
      let a₂ = (increment_id a₁).1 in
      let (e₂, w₂) = Epoll.add_read sys a.poller listener (pos_part (increment_id a₁).0) w₁ in
      watched e₁
        (elim e₂ [ some x ↦ ended (failed x, [], a₂, m, w₂) | none ↦ loop_of turns a₂ m w₂ ]) a₁ m
        w₁ s (watched e₂ (loop_of turns a₂ m w₂) a₂ m w₂ s (run_loop-KeptAfter turns a₂ m w₂ s))
