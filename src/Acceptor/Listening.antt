-- ===== src/Acceptor/Listening.antt =====
-- server/acceptor_linux.go, Run, over server/router.go: no connection stops the acceptor.
use netman.Common.{
  ℕ, zero, suc, ◌≡◌, true, Option, none, some, List, [], ◌∷◌, ◌==◌, choose, if◌then◌else◌,
}
use netman.Errors.{Errno, eagain, eintr, ebadf, epipe, other}
use netman.Kernel.{
  Sys, Net, CreateResult, created, create_failed, AcceptResult, accepted, accept_failed, Event,
  WaitResult, ready, wait_failed,
}
use netman.Epoll
use netman.Epoll.{Poller}
use netman.Host.{Host}
use netman.EventLoop.{EventLoop}
use netman.Connect.{BaseConnect}
use netman.Dispatch.{router_mode}
use netman.Manager.{ConnectManager, Ended, ended, blocked, panicked, ◌>>=◌}
use netman.Router.{RouterProtocol}
use netman.Acceptor.{
  Acceptor, AcceptOptions, Protocols, Next, go_on, leave, Run, returned, failed, attach,
  after_option, after_accept, on_event, on_events, run_loop, run_on, run,
}
use netman.Acceptor.Serves.{router_protocols, Registers, Attached, attach-Attached}
use netman.Wait.Served.{IsServing}

-- A call of the acceptor that returns, with a serving manager.
abbrev pub ServesNext :
    {W : Type 0} → Ended (Next × Acceptor × ConnectManager RouterProtocol × W) → Type 0
ServesNext (ended (n, a, m, w)) = IsServing m
ServesNext blocked = ⊥
ServesNext panicked = ⊥

abbrev pub ServesRun :
    {W : Type 0} → Ended (Run × Acceptor × ConnectManager RouterProtocol × W) → Type 0
ServesRun (ended (r, a, m, w)) = IsServing m
ServesRun blocked = ⊥
ServesRun panicked = ⊥

module _ {W : Type 0} (sys : Sys W) (net : Net W) (host : Host W)
    (websocket : BaseConnect → RouterProtocol) (options : AcceptOptions) (clock : W → ℕ)
    (loop : EventLoop) where
  abbrev protocols : Protocols RouterProtocol W
  protocols = router_protocols sys host websocket

  Attached-ServesNext :
      (fd : ℕ) (a : Acceptor) (m : ConnectManager RouterProtocol) (w : W)
      (r : Ended (Next × Acceptor × ConnectManager RouterProtocol × W))
      → Attached sys net host websocket options clock loop fd a m w r
      → ServesNext r
  Attached-ServesNext fd a m w (ended r) h = h.2
  Attached-ServesNext fd a m w blocked h = h
  Attached-ServesNext fd a m w panicked h = h

  module _ (mode : options.application ≡ router_mode) (reg : Registers sys loop) where
    after_option-ServesNext :
        (e : Option Errno) (fd : ℕ)
        (next : W → Ended (Next × Acceptor × ConnectManager RouterProtocol × W)) (a : Acceptor)
        (m : ConnectManager RouterProtocol) (w : W)
        → ((w' : W) → ServesNext (next w'))
        → IsServing m
        → ServesNext (after_option sys net protocols options clock loop e fd next a m w)
    unfolding after_option
    after_option-ServesNext (some e) fd next a m w h s = s
    after_option-ServesNext none fd next a m w h s = h w

    pub after_accept-ServesNext :
        (r : AcceptResult) (a : Acceptor) (m : ConnectManager RouterProtocol) (w : W)
        → IsServing m
        → ServesNext (after_accept sys net protocols options clock loop r a m w)
    unfolding after_accept
    after_accept-ServesNext (accept_failed eagain) a m w s = s
    after_accept-ServesNext (accept_failed eintr) a m w s = s
    after_accept-ServesNext (accept_failed ebadf) a m w s = s
    after_accept-ServesNext (accept_failed epipe) a m w s = s
    after_accept-ServesNext (accept_failed other) a m w s = s
    after_accept-ServesNext (accepted fd) a m w s =
        let (e, w₁) = if options.tls_enable then (none, w) else sys.set_nonblock fd true w in
        let attached = attach sys net protocols options clock loop fd a m in
        let later = λ (w₁ : W).
          let (e', w₂) = net.no_delay fd w₁ in
          after_option sys net protocols options clock loop e' fd attached a m w₂ in
        after_option-ServesNext e fd later a m w₁
          (λ w₁.
            let (e', w₂) = net.no_delay fd w₁ in
            after_option-ServesNext e' fd attached a m w₂
              (λ w₃.
                Attached-ServesNext fd a m w₃ (attached w₃)
                  (attach-Attached sys net host websocket options clock loop fd a m w₃ mode reg s))
              s)
          s

    pub on_event-ServesNext :
        (ev : Event) (a : Acceptor) (m : ConnectManager RouterProtocol) (w : W)
        → IsServing m
        → ServesNext (on_event sys net protocols options clock loop ev a m w)
    unfolding on_event
    on_event-ServesNext ev a m w s =
        choose ServesNext (ev.fd == a.eventfd) s
          (after_accept-ServesNext (net.accept ev.fd w).0 a m (net.accept ev.fd w).1 s)

    then_events :
        (evs : List Event) (r : Ended (Next × Acceptor × ConnectManager RouterProtocol × W))
        → ServesNext r
        → ((a : Acceptor) (m : ConnectManager RouterProtocol) (w : W)
            → IsServing m
            → ServesNext (on_events sys net protocols options clock loop evs a m w))
        → ServesNext (
            r >>= λ (next, a₁, m₁, w₁). elim next [
              | leave ↦ ended (leave, a₁, m₁, w₁)
              | go_on ↦ on_events sys net protocols options clock loop evs a₁ m₁ w₁
            ])
    then_events evs (ended (leave, a, m, w)) s later = s
    then_events evs (ended (go_on, a, m, w)) s later = later a m w s
    then_events evs blocked s later = s
    then_events evs panicked s later = s

    pub on_events-ServesNext :
        (evs : List Event) (a : Acceptor) (m : ConnectManager RouterProtocol) (w : W)
        → IsServing m
        → ServesNext (on_events sys net protocols options clock loop evs a m w)
    unfolding on_events
    on_events-ServesNext [] a m w s = s
    on_events-ServesNext (ev ∷ evs) a m w s =
        then_events evs (on_event sys net protocols options clock loop ev a m w)
          (on_event-ServesNext ev a m w s) (on_events-ServesNext evs)

    then_loop :
        (turns : ℕ) (p : Poller) (r : Ended (Next × Acceptor × ConnectManager RouterProtocol × W))
        → ServesNext r
        → ((a : Acceptor) (m : ConnectManager RouterProtocol) (w : W)
            → IsServing m
            → ServesRun (run_loop sys net protocols options clock loop turns p a m w))
        → ServesRun (
            r >>= λ (next, a₂, m₂, w₂). elim next [
              | leave ↦ ended (returned, a₂, m₂, w₂)
              | go_on ↦ run_loop sys net protocols options clock loop turns p a₂ m₂ w₂
            ])
    then_loop turns p (ended (leave, a, m, w)) s later = s
    then_loop turns p (ended (go_on, a, m, w)) s later = later a m w s
    then_loop turns p blocked s later = s
    then_loop turns p panicked s later = s

    after_turn :
        (turns : ℕ) (p : Poller) (r : WaitResult) (a : Acceptor) (m : ConnectManager RouterProtocol)
        (w : W)
        → IsServing m
        → ((a' : Acceptor) (m' : ConnectManager RouterProtocol) (w' : W)
            → IsServing m'
            → ServesRun (run_loop sys net protocols options clock loop turns p a' m' w'))
        → ServesRun (elim r [
          | wait_failed eagain ↦ run_loop sys net protocols options clock loop turns p a m w
          | wait_failed eintr ↦ run_loop sys net protocols options clock loop turns p a m w
          | wait_failed e ↦ ended (failed e, a, m, w)
          | ready evs ↦
              on_events sys net protocols options clock loop evs a m w >>= λ (next, a₂, m₂, w₂).
              elim next [
                | leave ↦ ended (returned, a₂, m₂, w₂)
                | go_on ↦ run_loop sys net protocols options clock loop turns p a₂ m₂ w₂
              ]
        ])
    after_turn turns p (wait_failed eagain) a m w s later = later a m w s
    after_turn turns p (wait_failed eintr) a m w s later = later a m w s
    after_turn turns p (wait_failed ebadf) a m w s later = s
    after_turn turns p (wait_failed epipe) a m w s later = s
    after_turn turns p (wait_failed other) a m w s later = s
    after_turn turns p (ready evs) a m w s later =
        then_loop turns p (on_events sys net protocols options clock loop evs a m w)
          (on_events-ServesNext evs a m w s) later

    run_loop-ServesRun :
        (turns : ℕ) (p : Poller) (a : Acceptor) (m : ConnectManager RouterProtocol) (w : W)
        → IsServing m
        → ServesRun (run_loop sys net protocols options clock loop turns p a m w)
    unfolding run_loop
    run_loop-ServesRun zero p a m w s = s
    run_loop-ServesRun (suc turns) p a m w s =
        let (r, w₁) = net.epoll_wait p.epfd w in
        after_turn turns p r a m w₁ s (run_loop-ServesRun turns p)

    watched-ServesRun :
        (e : Option Errno) (next : Ended (Run × Acceptor × ConnectManager RouterProtocol × W))
        (a : Acceptor) (m : ConnectManager RouterProtocol) (w : W)
        → IsServing m
        → ServesRun next
        → ServesRun (elim e [ some x ↦ ended (failed x, a, m, w) | none ↦ next ])
    watched-ServesRun (some x) next a m w s later = s
    watched-ServesRun none next a m w s later = later

    run_on-ServesRun :
        (turns listener : ℕ) (r : CreateResult) (a : Acceptor) (m : ConnectManager RouterProtocol)
        (w : W)
        → IsServing m
        → ServesRun (run_on sys net protocols options clock loop turns listener r a m w)
    unfolding run_on Epoll.add_read
    run_on-ServesRun turns listener (create_failed e) a m w s = s
    run_on-ServesRun turns listener (created epfd) a m w s =
        let p : Poller = record { epfd = epfd } in
        let (e₁, w₁) = Epoll.add_read sys p a.eventfd 0 w in
        let (e₂, w₂) = Epoll.add_read sys p listener 1 w₁ in
        let looped = run_loop sys net protocols options clock loop turns p a m w₂ in
        watched-ServesRun e₁ (elim e₂ [ some x ↦ ended (failed x, a, m, w₂) | none ↦ looped ]) a m
          w₁ s (watched-ServesRun e₂ looped a m w₂ s (run_loop-ServesRun turns p a m w₂ s))

    -- Run of the acceptor, for any number of turns of its loop, in router mode, with a poller for every
    -- id and registrations that succeed, on a manager whose lock is free and that holds served
    -- connections: whatever is accepted and whatever fails on the way, it neither panics nor waits for
    -- ever on the lock, and the manager is still such.
    pub run-ServesRun :
        (turns listener : ℕ) (a : Acceptor) (m : ConnectManager RouterProtocol) (w : W)
        → IsServing m
        → ServesRun (run sys net protocols options clock loop turns listener a m w)
    unfolding run
    run-ServesRun turns listener a m w s =
        let (r, w₁) = net.epoll_create w in run_on-ServesRun turns listener r a m w₁ s
