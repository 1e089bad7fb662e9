-- ===== src/Udp/Turns.antt =====
-- server/acceptor_udp_linux.go: the loop of the acceptor of a datagram server. Its state, IncrementID,
-- Close and Exit are the same code as those of server/acceptor_linux.go.
use netman.Common.{
  ℕ, zero, suc, Option, none, some, List, [], ◌∷◌, ◌++◌, length, ◌==◌, if◌then◌else◌,
}
use netman.Common.Int.{pos_part}
use netman.Errors.{eagain, eintr, Result, ok, err}
use netman.Kernel.{Sys, Net, Event, ready, wait_failed}
use netman.Epoll
use netman.Epoll.{Poller}
use netman.EventLoop.{EventLoop}
use netman.Util.Message.{Message}
use netman.Router.Layout.{Packer}
use netman.Manager.{ConnectManager, Ended, ended, ◌>>=◌}
use netman.Acceptor
use netman.Acceptor.{
  Acceptor, AcceptOptions, Protocols, Next, go_on, leave, Run, returned, failed, running,
  increment_id, new_acceptor, read_into,
}
use netman.Udp.{UdpNet, make_udp_connect}

-- newAcceptorUdp.
unfoldable pub new_acceptor_udp : {W : Type 0} → Sys W → Net W → W → Option (Acceptor × W)
unfolding new_acceptor
new_acceptor_udp sys net w = new_acceptor sys net w

-- Close of acceptorUdp, here of the poller of its loop.
unfoldable pub close_udp : {W : Type 0} → Sys W → Net W → Acceptor → W → W
unfolding Acceptor.close
close_udp sys net a w = Acceptor.close sys net a w

-- Exit of acceptorUdp.
unfoldable pub exit_udp : {W : Type 0} → Sys W → Net W → Acceptor → W → W
unfolding Acceptor.exit
exit_udp sys net a w = Acceptor.exit sys net a w

module _ {A C W : Type 0} (sys : Sys W) (net : Net W) (udp : UdpNet A W) (protocols : Protocols C W)
    (p : Packer) (options : AcceptOptions) (buffer_length : ℕ) (clock : W → ℕ)
    (loop : EventLoop) where
  -- What Run does of an event, with the message for the channel; an error is only logged.
  abbrev pub Taken : Type 0
  Taken = Ended (Next × List (C × Message) × Acceptor × ConnectManager C × W)

  abbrev pub sent_of : Result (C × Message) → List (C × Message)
  sent_of (ok x) = x ∷ []
  sent_of (err e) = []

  unfoldable pub on_event : Event → Acceptor → ConnectManager C → W → Taken
  unfolding make_udp_connect close_udp
  on_event ev a m w =
      if ev.fd == a.eventfd
      then (let (r, w₁) = sys.read ev.fd (length a.eventbuff) w in
          ended (
            leave,
            [],
            record a {
              eventbuff = Acceptor.read_into sys net protocols options clock loop a.eventbuff r;
            },
            m,
            close_udp sys net a w₁,
          ))
      else (make_udp_connect sys net udp protocols p options buffer_length clock loop ev.fd a m w
          >>= λ (r, a₁, m₁, w₁). ended (go_on, sent_of r, a₁, m₁, w₁))

  unfoldable pub on_events : List Event → Acceptor → ConnectManager C → W → Taken
  on_events [] a m w = ended (go_on, [], a, m, w)
  on_events (ev ∷ evs) a m w = on_event ev a m w >>= λ (next, sent, a₁, m₁, w₁). elim next [
    | leave ↦ ended (leave, sent, a₁, m₁, w₁)
    | go_on ↦ on_events evs a₁ m₁ w₁ >>= λ (next₂, rest, a₂, m₂, w₂).
        ended (next₂, sent ++ rest, a₂, m₂, w₂)
  ]

  abbrev pub Ran : Type 0
  Ran = Ended (Run × List (C × Message) × Acceptor × ConnectManager C × W)

  -- The loop, for as many turns at most.
  unfoldable pub run_loop : ℕ → Acceptor → ConnectManager C → W → Ran
  run_loop zero a m w = ended (running, [], a, m, w)
  run_loop (suc turns) a m w =
      let (r, w₁) = net.epoll_wait a.poller.epfd w in
      elim r [
        | wait_failed eagain ↦ run_loop turns a m w₁
        | wait_failed eintr ↦ run_loop turns a m w₁
        | wait_failed e ↦ ended (failed e, [], a, m, w₁)
        | ready evs ↦ on_events evs a m w₁ >>= λ (next, sent, a₂, m₂, w₂). elim next [
          | leave ↦ ended (returned, sent, a₂, m₂, w₂)
          | go_on ↦ run_loop turns a₂ m₂ w₂ >>= λ (r', rest, a₃, m₃, w₃).
              ended (r', sent ++ rest, a₃, m₃, w₃)
        ]
      ]

  -- Run: the eventfd and the listener take the first two ids.
  unfoldable pub run : ℕ → ℕ → Acceptor → ConnectManager C → W → Ran
  unfolding increment_id Epoll.add_read run_loop
  run turns listener a m w =
      let (id₁, a₁) = increment_id a in
      let (e₁, w₁) = Epoll.add_read sys a.poller a.eventfd (pos_part id₁) w in
      elim e₁ [
        | some e ↦ ended (failed e, [], a₁, m, w₁)
        | none ↦
            let (id₂, a₂) = increment_id a₁ in
            let (e₂, w₂) = Epoll.add_read sys a.poller listener (pos_part id₂) w₁ in
            elim e₂ [ some e ↦ ended (failed e, [], a₂, m, w₂) | none ↦ run_loop turns a₂ m w₂ ]
      ]
