-- ===== src/Darwin.antt =====
-- server/acceptor_darwin.go: the acceptor over a kernel queue. Its state is that of acceptor_linux.go,
-- with 0 for the descriptor of the event that ends its loop.
pub mod Sockets
pub mod Datagrams
pub mod Listening
pub mod Leaving
use netman.Common.{ℕ, zero, suc, Option, none, some, List, [], ◌∷◌, ◌==◌, if◌then◌else◌}
use netman.Common.Int.{ℤ, negsuc}
use netman.Errors.{Errno, eagain, eintr}
use netman.Kernel.{Sys, Net, CreateResult}
use netman.Epoll.{Poller}
use netman.EventLoop.{EventLoop}
use netman.Manager.{ConnectManager, Ended, ended, ◌>>=◌}
use netman.Acceptor
use netman.Acceptor.{
  Acceptor, AcceptOptions, Protocols, Next, go_on, leave, Run, returned, failed, running,
  after_accept,
}
use netman.Kqueue.{Kevent, on_kqueue, add_read}
use netman.Kqueue.Waiting.{Occurrence, Waited, occurred, wait_failed, new_poller}

-- The queue's calls besides its changes of filters: to make one, to add the event of EVFILT_USER, to
-- trigger it, and to wait.
pub record Queues (W : Type 0) : Type 0 where
  pub kqueue : W → CreateResult × W
  pub add_user : ℕ → W → Option Errno × W
  pub trigger_user : ℕ → W → W
  pub occurs : ℕ → W → Waited × W

-- newAcceptor, from the poller on; `none` is log.Panicln.
unfoldable pub with_poller : {W : Type 0} → Option Poller → W → Option (Acceptor × W)
with_poller none w = none
with_poller (some p) w =
    some (record { poller = p; eventfd = 0; eventbuff = []; conn_id = negsuc 0 }, w)

unfoldable pub new_acceptor : {W : Type 0} → Queues W → W → Option (Acceptor × W)
unfolding with_poller new_poller
new_acceptor queues w = let (r, w₁) = queues.kqueue w in with_poller (new_poller r) w₁

unfoldable pub increment_id : Acceptor → ℤ × Acceptor
unfolding Acceptor.increment_id
increment_id a = Acceptor.increment_id a

unfoldable pub exit : {W : Type 0} → Queues W → Acceptor → W → W
exit queues a w = queues.trigger_user a.poller.epfd w

module _ {W : Type 0} (sys : Sys W) (kevent : Kevent W) (net : Net W) where
  -- The three calls of Close are those of acceptor_linux.go.
  unfoldable pub close : Acceptor → W → W
  unfolding Acceptor.close
  close a w = Acceptor.close (on_kqueue kevent sys) net a w

module _ {C W : Type 0} (sys : Sys W) (kevent : Kevent W) (net : Net W) (queues : Queues W)
    (protocols : Protocols C W) (options : AcceptOptions) (clock : W → ℕ) (loop : EventLoop) where
  abbrev pub Accepted : Type 0
  Accepted = Ended (Next × Acceptor × ConnectManager C × W)

  -- From unix.Accept on, the text of acceptor_linux.go.
  unfoldable pub accept : ℕ → Acceptor → ConnectManager C → W → Accepted
  unfolding after_accept
  accept fd a m w =
      let (r, w₁) = net.accept fd w in
      after_accept (on_kqueue kevent sys) net protocols options clock loop r a m w₁

  -- One event of Run.
  unfoldable pub on_occurrence : Occurrence → Acceptor → ConnectManager C → W → Accepted
  unfolding close accept
  on_occurrence ev a m w =
      if ev.ident == a.eventfd
      then ended (leave, a, m, close sys kevent net a w)
      else accept ev.ident a m w

  unfoldable pub on_occurrences : List Occurrence → Acceptor → ConnectManager C → W → Accepted
  on_occurrences [] a m w = ended (go_on, a, m, w)
  on_occurrences (ev ∷ evs) a m w = on_occurrence ev a m w >>= λ (next, a₁, m₁, w₁). elim next [
    | leave ↦ ended (leave, a₁, m₁, w₁)
    | go_on ↦ on_occurrences evs a₁ m₁ w₁
  ]

  abbrev pub Ran : Type 0
  Ran = Ended (Run × Acceptor × ConnectManager C × W)

  -- The loop of Run, for as many turns at most.
  unfoldable pub run_loop : ℕ → Acceptor → ConnectManager C → W → Ran
  run_loop zero a m w = ended (running, a, m, w)
  run_loop (suc turns) a m w =
      let (r, w₁) = queues.occurs a.poller.epfd w in
      elim r [
        | wait_failed eagain ↦ run_loop turns a m w₁
        | wait_failed eintr ↦ run_loop turns a m w₁
        | wait_failed e ↦ ended (failed e, a, m, w₁)
        | occurred evs ↦ on_occurrences evs a m w₁ >>= λ (next, a₂, m₂, w₂). elim next [
          | leave ↦ ended (returned, a₂, m₂, w₂)
          | go_on ↦ run_loop turns a₂ m₂ w₂
        ]
      ]

  -- Run watches the user event and the listener, with the acceptor's own poller.
  unfoldable pub run : ℕ → ℕ → Acceptor → ConnectManager C → W → Ran
  unfolding run_loop add_read
  run turns listener a m w =
      let (e₁, w₁) = queues.add_user a.poller.epfd w in
      elim e₁ [
        | some e ↦ ended (failed e, a, m, w₁)
        | none ↦
            let (e₂, w₂) = add_read kevent a.poller listener 0 w₁ in
            elim e₂ [ some e ↦ ended (failed e, a, m, w₂) | none ↦ run_loop turns a m w₂ ]
      ]
