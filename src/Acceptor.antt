-- ===== src/Acceptor.antt =====
-- server/acceptor_linux.go: the acceptor, which takes connections from the listener, and hands each to
-- the event loop and to the connection manager.
pub mod Serves
pub mod Listening
pub mod Refused
use netman.Common.{
  ℕ, zero, suc, Bool, true, false, not, Option, none, some, List, [], ◌∷◌, ◌++◌, Bytes, drop,
  length, ◌==◌, if◌then◌else◌,
}
use netman.Common.Int.{ℤ, pos, negsuc, pos_part, ◌+ℤ◌}
use netman.Errors.{Errno, eagain, eintr, ebadf}
use netman.Kernel.{
  Sys, Net, CreateResult, created, create_failed, AcceptResult, accepted, accept_failed, Event,
  WaitResult, ready, wait_failed, Call, returns, panics, ReadResult, got, read_failed,
}
use netman.Epoll
use netman.Epoll.{Poller}
use netman.EventLoop as Loop
use netman.EventLoop.{EventLoop}
use netman.Connect.{BaseConnect, new_base_connect}
use netman.Dispatch.{Application, router_mode, websocket_mode}
use netman.Manager
use netman.Manager.{ConnectManager, Ended, ended, blocked, panicked, ◌>>=◌, of_lock}

-- Of the options the acceptor reads these three, when a connection comes.
pub record AcceptOptions : Type 0 where
  pub tls_enable : Bool
  pub has_hooks : Bool
  pub application : Application

pub record Acceptor : Type 0 where
  pub poller : Poller
  pub eventfd : ℕ
  pub eventbuff : Bytes
  pub conn_id : ℤ

abbrev pub exit_event : Bytes
exit_event = 0 ∷ 0 ∷ 0 ∷ 0 ∷ 0 ∷ 0 ∷ 0 ∷ 1 ∷ []

unfoldable pub increment_id : Acceptor → ℤ × Acceptor
unfolding ◌+ℤ◌
increment_id a = let id = a.conn_id +ℤ pos 1 in (id, record a { conn_id = id })

-- The connections that the acceptor makes, as it uses them.
pub record Protocols (C W : Type 0) : Type 0 where
  pub new_router_protocol : BaseConnect → C
  pub new_websocket_protocol : BaseConnect → C
  pub base : C → BaseConnect
  pub with_base : C → BaseConnect → C
  pub close : C → ConnectManager C → W → Ended (ConnectManager C × W)

-- What an event of the acceptor leads to: the loop goes on, or Run returns nil.
pub data Next : Type 0 where
  go_on leave : Next

-- How Run ends. `running` is no Go value: the loop goes on.
pub data Run : Type 0 where
  returned : Run
  failed : Errno → Run
  running : Run

module _ {W : Type 0} (sys : Sys W) (net : Net W) where
  -- newAcceptor, from its second call on; `none` is log.Panicln.
  abbrev pub with_poller : ℕ → CreateResult × W → Option (Acceptor × W)
  with_poller eventfd (create_failed e, w) = none
  with_poller eventfd (created epfd, w) = some (
    record {
      poller = record { epfd = epfd };
      eventfd = eventfd;
      eventbuff = exit_event;
      conn_id = negsuc 0;
    },
    w,
  )

  abbrev pub with_event : CreateResult × W → Option (Acceptor × W)
  with_event (create_failed e, w) = none
  with_event (created eventfd, w) = with_poller eventfd (net.epoll_create w)

  unfoldable pub new_acceptor : W → Option (Acceptor × W)
  new_acceptor w = with_event (net.event w)

  -- Close: of the acceptor's own poller, which is not that of Run.
  unfoldable pub close : Acceptor → W → W
  unfolding Epoll.remove Epoll.close
  close a w =
      let (_, w₁) = Epoll.remove sys a.poller a.eventfd w in
      let (_, w₂) = sys.close a.eventfd w₁ in (Epoll.close sys a.poller w₂).1

  unfoldable pub exit : Acceptor → W → W
  exit a w = (sys.write a.eventfd a.eventbuff w).1

module _ {C W : Type 0} (sys : Sys W) (net : Net W) (protocols : Protocols C W)
    (options : AcceptOptions) (clock : W → ℕ) (loop : EventLoop) where
  abbrev pub Accepted : Type 0
  Accepted = Ended (Next × Acceptor × ConnectManager C × W)

  -- After AddRead of the new connection.
  unfoldable pub after_add : Call (Option Errno) → Acceptor → C → ConnectManager C → W → Accepted
  after_add panics a c m w = panicked
  after_add (returns (some e)) a c m w =
      protocols.close c m w >>= λ (m', w'). ended (go_on, a, m', w')
  after_add (returns none) a c m w =
      of_lock (Manager.add m (protocols.base c).fd c) >>= λ m'. ended (go_on, a, m', w)

  abbrev pub new_protocol : Application → BaseConnect → C
  new_protocol router_mode b = protocols.new_router_protocol b
  new_protocol websocket_mode b = protocols.new_websocket_protocol b

  -- The connection on a descriptor whose options are set.
  unfoldable pub attach : ℕ → Acceptor → ConnectManager C → W → Accepted
  unfolding after_add increment_id new_base_connect Loop.add_read
  attach fd a m w =
      let (id, a') = increment_id a in
      let base =
        new_base_connect (pos_part id) fd false options.has_hooks options.tls_enable (clock w) in
      let c = new_protocol options.application base in
      let (r, base', w') = Loop.add_read sys loop (protocols.base c) w in
      after_add r a' (protocols.with_base c base') m w'

  -- A descriptor with an option that could not be set is closed.
  unfoldable pub after_option :
      Option Errno → ℕ → (W → Accepted) → Acceptor → ConnectManager C → W → Accepted
  after_option (some e) fd next a m w = ended (go_on, a, m, (sys.close fd w).1)
  after_option none fd next a m w = next w

  unfoldable pub after_accept : AcceptResult → Acceptor → ConnectManager C → W → Accepted
  unfolding close attach after_option
  after_accept (accept_failed ebadf) a m w = ended (leave, a, m, close sys net a w)
  after_accept (accept_failed e) a m w = ended (go_on, a, m, w)
  after_accept (accepted fd) a m w =
      let (e, w₁) = if options.tls_enable then (none, w) else sys.set_nonblock fd true w in
      after_option e fd
        (λ w₁. let (e', w₂) = net.no_delay fd w₁ in after_option e' fd (attach fd a m) a m w₂) a m
        w₁

  -- The buffer of a read, once it is read into.
  abbrev pub read_into : Bytes → ReadResult → Bytes
  read_into buff (read_failed e) = buff
  read_into buff (got bs) = bs ++ drop (length bs) buff

  -- One event of Run: the call to leave, or a connection.
  unfoldable pub on_event : Event → Acceptor → ConnectManager C → W → Accepted
  unfolding close after_accept
  on_event ev a m w =
      if ev.fd == a.eventfd
      then (let (r, w₁) = sys.read ev.fd (length a.eventbuff) w in
          ended (leave, record a { eventbuff = read_into a.eventbuff r }, m, close sys net a w₁))
      else (let (r, w₁) = net.accept ev.fd w in after_accept r a m w₁)

  unfoldable pub on_events : List Event → Acceptor → ConnectManager C → W → Accepted
  on_events [] a m w = ended (go_on, a, m, w)
  on_events (ev ∷ evs) a m w = on_event ev a m w >>= λ (next, a₁, m₁, w₁). elim next [
    | leave ↦ ended (leave, a₁, m₁, w₁)
    | go_on ↦ on_events evs a₁ m₁ w₁
  ]

  abbrev pub Ran : Type 0
  Ran = Ended (Run × Acceptor × ConnectManager C × W)

  -- The loop of Run on its poller, for as many turns at most.
  unfoldable pub run_loop : ℕ → Poller → Acceptor → ConnectManager C → W → Ran
  run_loop zero p a m w = ended (running, a, m, w)
  run_loop (suc turns) p a m w =
      let (r, w₁) = net.epoll_wait p.epfd w in
      elim r [
        | wait_failed eagain ↦ run_loop turns p a m w₁
        | wait_failed eintr ↦ run_loop turns p a m w₁
        | wait_failed e ↦ ended (failed e, a, m, w₁)
        | ready evs ↦ on_events evs a m w₁ >>= λ (next, a₂, m₂, w₂). elim next [
          | leave ↦ ended (returned, a₂, m₂, w₂)
          | go_on ↦ run_loop turns p a₂ m₂ w₂
        ]
      ]

  -- Run, once its poller is made: it watches the eventfd and the listener.
  unfoldable pub run_on : ℕ → ℕ → CreateResult → Acceptor → ConnectManager C → W → Ran
  unfolding Epoll.add_read run_loop
  run_on turns listener (create_failed e) a m w = ended (failed e, a, m, w)
  run_on turns listener (created epfd) a m w =
      let p : Poller = record { epfd = epfd } in
      let (e₁, w₁) = Epoll.add_read sys p a.eventfd 0 w in
      elim e₁ [
        | some e ↦ ended (failed e, a, m, w₁)
        | none ↦
            let (e₂, w₂) = Epoll.add_read sys p listener 1 w₁ in
            elim e₂ [ some e ↦ ended (failed e, a, m, w₂) | none ↦ run_loop turns p a m w₂ ]
      ]

  unfoldable pub run : ℕ → ℕ → Acceptor → ConnectManager C → W → Ran
  unfolding run_on
  run turns listener a m w = let (r, w₁) = net.epoll_create w in run_on turns listener r a m w₁
