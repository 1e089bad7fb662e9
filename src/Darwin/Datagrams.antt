-- ===== src/Darwin/Datagrams.antt =====
-- server/acceptor_udp_darwin.go: the acceptor of a datagram server over a kernel queue.
use netman.Common.{ℕ, zero, suc, Option, none, some, List, [], ◌∷◌, ◌++◌, ◌==◌, if◌then◌else◌}
use netman.Common.Int.{ℤ, pos_part}
use netman.Errors.{eagain, eintr, Result, ok, err}
use netman.Kernel.{Sys, Net}
use netman.EventLoop.{EventLoop}
use netman.Util.Message.{Message}
use netman.Router.Layout.{Packer}
use netman.Manager.{ConnectManager, Ended, ended, ◌>>=◌}
use netman.Acceptor
use netman.Acceptor.{
  Acceptor, AcceptOptions, Protocols, Next, go_on, leave, Run, returned, failed, running,
}
use netman.Udp.{UdpNet, make_udp_connect}
use netman.Kqueue.{Kevent, on_kqueue, add_read}
use netman.Kqueue.Waiting.{Occurrence, occurred, wait_failed}
use netman.Darwin as Streams
use netman.Darwin.{Queues}

-- The state and its methods are the text of acceptor_darwin.go.
unfoldable pub new_acceptor_udp : {W : Type 0} → Queues W → W → Option (Acceptor × W)
unfolding Streams.new_acceptor
new_acceptor_udp queues w = Streams.new_acceptor queues w

unfoldable pub increment_udp_id : Acceptor → ℤ × Acceptor
unfolding Acceptor.increment_id
increment_udp_id a = Acceptor.increment_id a

unfoldable pub exit_udp : {W : Type 0} → Queues W → Acceptor → W → W
unfolding Streams.exit
exit_udp queues a w = Streams.exit queues a w

unfoldable pub close_udp : {W : Type 0} → Sys W → Kevent W → Net W → Acceptor → W → W
unfolding Streams.close
close_udp sys kevent net a w = Streams.close sys kevent net a w

module _ {A C W : Type 0} (sys : Sys W) (kevent : Kevent W) (net : Net W) (queues : Queues W)
    (udp : UdpNet A W) (protocols : Protocols C W) (p : Packer) (options : AcceptOptions)
    (buffer_length : ℕ) (clock : W → ℕ) (loop : EventLoop) where
  -- What Run does of an event, with the message for the channel; an error is only logged.
  abbrev pub Taken : Type 0
  Taken = Ended (Next × List (C × Message) × Acceptor × ConnectManager C × W)

  abbrev pub sent_of : Result (C × Message) → List (C × Message)
  sent_of (ok x) = x ∷ []
  sent_of (err e) = []

  unfoldable pub on_occurrence : Occurrence → Acceptor → ConnectManager C → W → Taken
  unfolding close_udp make_udp_connect
  on_occurrence ev a m w =
      if ev.ident == a.eventfd
      then ended (leave, [], a, m, close_udp sys kevent net a w)
      else (make_udp_connect (on_kqueue kevent sys) net udp protocols p options buffer_length clock
            loop ev.ident a m w
          >>= λ (r, a₁, m₁, w₁). ended (go_on, sent_of r, a₁, m₁, w₁))

  unfoldable pub on_occurrences : List Occurrence → Acceptor → ConnectManager C → W → Taken
  on_occurrences [] a m w = ended (go_on, [], a, m, w)
  on_occurrences (ev ∷ evs) a m w = on_occurrence ev a m w >>= λ (next, sent, a₁, m₁, w₁).
      elim next [
        | leave ↦ ended (leave, sent, a₁, m₁, w₁)
        | go_on ↦ on_occurrences evs a₁ m₁ w₁ >>= λ (next₂, rest, a₂, m₂, w₂).
            ended (next₂, sent ++ rest, a₂, m₂, w₂)
      ]

  abbrev pub Ran : Type 0
  Ran = Ended (Run × List (C × Message) × Acceptor × ConnectManager C × W)

  -- The loop, for as many turns at most.
  unfoldable pub run_loop : ℕ → Acceptor → ConnectManager C → W → Ran
  run_loop zero a m w = ended (running, [], a, m, w)
  run_loop (suc turns) a m w =
      let (r, w₁) = queues.occurs a.poller.epfd w in
      elim r [
        | wait_failed eagain ↦ run_loop turns a m w₁
        | wait_failed eintr ↦ run_loop turns a m w₁
        | wait_failed e ↦ ended (failed e, [], a, m, w₁)
        | occurred evs ↦ on_occurrences evs a m w₁ >>= λ (next, sent, a₂, m₂, w₂). elim next [
          | leave ↦ ended (returned, sent, a₂, m₂, w₂)
          | go_on ↦ run_loop turns a₂ m₂ w₂ >>= λ (r', rest, a₃, m₃, w₃).
              ended (r', sent ++ rest, a₃, m₃, w₃)
        ]
      ]

  -- Run: the listener takes the first id.
  unfoldable pub run : ℕ → ℕ → Acceptor → ConnectManager C → W → Ran
  unfolding increment_udp_id run_loop add_read
  run turns listener a m w =
      let (e₁, w₁) = queues.add_user a.poller.epfd w in
      elim e₁ [
        | some e ↦ ended (failed e, [], a, m, w₁)
        | none ↦
            let (id, a₁) = increment_udp_id a in
            let (e₂, w₂) = add_read kevent a₁.poller listener (pos_part id) w₁ in
            elim e₂ [ some e ↦ ended (failed e, [], a₁, m, w₂) | none ↦ run_loop turns a₁ m w₂ ]
      ]
