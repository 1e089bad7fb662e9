-- ===== src/Darwin/Listening.antt =====
-- server/acceptor_darwin.go: the acceptor of a server in router mode keeps its connections served, and
-- closes its event and its queue where its loop ends.
use netman.Common.{ℕ, zero, suc, ◌≡◌, refl, subst, ◌==◌, Option, none, some, List, [], ◌∷◌, choose}
use netman.Errors.{Errno, eagain, eintr, ebadf, epipe, other}
use netman.Kernel.{Sys, Net, CreateResult, created, create_failed}
use netman.Host.{Host}
use netman.EventLoop.{EventLoop}
use netman.Connect.{BaseConnect}
use netman.Dispatch.{router_mode}
use netman.Manager.{ConnectManager, Ended, ended, blocked, panicked, ◌>>=◌}
use netman.Router.{RouterProtocol}
use netman.Acceptor.{
  Acceptor, AcceptOptions, Protocols, Next, go_on, leave, Run, returned, failed, running,
}
use netman.Acceptor.Serves.{router_protocols, Registers}
use netman.Acceptor.Listening.{ServesNext, after_accept-ServesNext}
use netman.Wait.Served.{IsServing}
use netman.Kqueue.{Kevent, on_kqueue, add_read}
use netman.Kqueue.Waiting.{Occurrence, Waited, occurred, wait_failed, new_poller}
use netman.Darwin.{
  Queues, with_poller, new_acceptor, accept, on_occurrence, on_occurrences, run_loop, run,
}
use netman.Darwin.Leaving.{HasClosed, Keeps, on_occurrence-Keeps}

module _ {W : Type 0} (sys : Sys W) (kevent : Kevent W) (net : Net W) (queues : Queues W)
    (host : Host W) (websocket : BaseConnect → RouterProtocol) (options : AcceptOptions)
    (clock : W → ℕ) (loop : EventLoop) (mode : options.application ≡ router_mode)
    (reg : Registers (on_kqueue kevent sys) loop) where
  abbrev system : Sys W
  system = on_kqueue kevent sys

  abbrev protocols : Protocols RouterProtocol W
  protocols = router_protocols system host websocket

  -- Between two events.
  abbrev Holds : ℕ → Acceptor → ConnectManager RouterProtocol → Type 0
  Holds epfd a m = IsServing m × (a.eventfd ≡ 0) × (a.poller.epfd ≡ epfd)

  abbrev AfterEvent : ℕ → Ended (Next × Acceptor × ConnectManager RouterProtocol × W) → Type 0
  AfterEvent epfd (ended (go_on, a, m, w)) = Holds epfd a m
  AfterEvent epfd (ended (leave, a, m, w)) = IsServing m × HasClosed sys 0 epfd w
  AfterEvent epfd blocked = ⊥
  AfterEvent epfd panicked = ⊥

  -- How Run ends: with served connections, and if it returned nil, with descriptor 0 and then its
  -- queue closed by the last calls.
  abbrev pub ServesAndCloses :
      ℕ → Ended (Run × Acceptor × ConnectManager RouterProtocol × W) → Type 0
  ServesAndCloses epfd (ended (returned, a, m, w)) = IsServing m × HasClosed sys 0 epfd w
  ServesAndCloses epfd (ended (failed e, a, m, w)) = IsServing m
  ServesAndCloses epfd (ended (running, a, m, w)) = IsServing m
  ServesAndCloses epfd blocked = ⊥
  ServesAndCloses epfd panicked = ⊥

  both :
      (epfd : ℕ) (r : Ended (Next × Acceptor × ConnectManager RouterProtocol × W))
      → ServesNext r
      → Keeps sys 0 epfd r
      → AfterEvent epfd r
  both epfd (ended (go_on, a, m, w)) s k = (s, k.0, k.1)
  both epfd (ended (leave, a, m, w)) s k = (s, k)
  both epfd blocked s k = s
  both epfd panicked s k = s

  occurrence-ServesNext :
      (ev : Occurrence) (a : Acceptor) (m : ConnectManager RouterProtocol) (w : W)
      → IsServing m
      → ServesNext (on_occurrence sys kevent net queues protocols options clock loop ev a m w)
  unfolding on_occurrence accept
  occurrence-ServesNext ev a m w s = choose ServesNext (ev.ident == a.eventfd) s (
      after_accept-ServesNext system net host websocket options clock loop mode reg
        (net.accept ev.ident w).0 a m (net.accept ev.ident w).1 s)

  on_occurrence-AfterEvent :
      (epfd : ℕ) (ev : Occurrence) (a : Acceptor) (m : ConnectManager RouterProtocol) (w : W)
      → Holds epfd a m
      → AfterEvent epfd (on_occurrence sys kevent net queues protocols options clock loop ev a m w)
  on_occurrence-AfterEvent epfd ev a m w (s, zero_event, queue) =
      let r = on_occurrence sys kevent net queues protocols options clock loop ev a m w in
      both epfd r (occurrence-ServesNext ev a m w s) (
        subst (λ k. Keeps sys k epfd r) zero_event
          (subst (λ q. Keeps sys a.eventfd q r) queue
            (on_occurrence-Keeps sys kevent net queues protocols options clock loop ev a m w)))

  then_occurrences :
      (epfd : ℕ) (evs : List Occurrence)
      (r : Ended (Next × Acceptor × ConnectManager RouterProtocol × W))
      → AfterEvent epfd r
      → ((a : Acceptor) (m : ConnectManager RouterProtocol) (w : W)
          → Holds epfd a m
          → AfterEvent epfd
              (on_occurrences sys kevent net queues protocols options clock loop evs a m w))
      → AfterEvent epfd (
          r >>= λ (next, a₁, m₁, w₁). elim next [
            | leave ↦ ended (leave, a₁, m₁, w₁)
            | go_on ↦ on_occurrences sys kevent net queues protocols options clock loop evs a₁ m₁ w₁
          ])
  then_occurrences epfd evs (ended (leave, a, m, w)) h later = h
  then_occurrences epfd evs (ended (go_on, a, m, w)) h later = later a m w h
  then_occurrences epfd evs blocked h later = h
  then_occurrences epfd evs panicked h later = h

  on_occurrences-AfterEvent :
      (epfd : ℕ) (evs : List Occurrence) (a : Acceptor) (m : ConnectManager RouterProtocol) (w : W)
      → Holds epfd a m
      → AfterEvent epfd
          (on_occurrences sys kevent net queues protocols options clock loop evs a m w)
  unfolding on_occurrences
  on_occurrences-AfterEvent epfd [] a m w h = h
  on_occurrences-AfterEvent epfd (ev ∷ evs) a m w h =
      then_occurrences epfd evs
        (on_occurrence sys kevent net queues protocols options clock loop ev a m w)
        (on_occurrence-AfterEvent epfd ev a m w h) (on_occurrences-AfterEvent epfd evs)

  abbrev loop_of :
      ℕ
      → Acceptor
      → ConnectManager RouterProtocol
      → W
      → Ended (Run × Acceptor × ConnectManager RouterProtocol × W)
  loop_of = run_loop sys kevent net queues protocols options clock loop

  then_loop :
      (epfd turns : ℕ) (r : Ended (Next × Acceptor × ConnectManager RouterProtocol × W))
      → AfterEvent epfd r
      → ((a : Acceptor) (m : ConnectManager RouterProtocol) (w : W)
          → Holds epfd a m
          → ServesAndCloses epfd (loop_of turns a m w))
      → ServesAndCloses epfd (
          r >>= λ (next, a₂, m₂, w₂). elim next [
            | leave ↦ ended (returned, a₂, m₂, w₂)
            | go_on ↦ loop_of turns a₂ m₂ w₂
          ])
  then_loop epfd turns (ended (leave, a, m, w)) h later = h
  then_loop epfd turns (ended (go_on, a, m, w)) h later = later a m w h
  then_loop epfd turns blocked h later = h
  then_loop epfd turns panicked h later = h

  after_turn :
      (epfd turns : ℕ) (r : Waited) (a : Acceptor) (m : ConnectManager RouterProtocol) (w : W)
      → Holds epfd a m
      → ((a' : Acceptor) (m' : ConnectManager RouterProtocol) (w' : W)
          → Holds epfd a' m'
          → ServesAndCloses epfd (loop_of turns a' m' w'))
      → ServesAndCloses epfd (elim r [
        | wait_failed eagain ↦ loop_of turns a m w
        | wait_failed eintr ↦ loop_of turns a m w
        | wait_failed e ↦ ended (failed e, a, m, w)
        | occurred evs ↦
            on_occurrences sys kevent net queues protocols options clock loop evs a m w
            >>= λ (next, a₂, m₂, w₂). elim next [
              | leave ↦ ended (returned, a₂, m₂, w₂)
              | go_on ↦ loop_of turns a₂ m₂ w₂
            ]
      ])
  after_turn epfd turns (wait_failed eagain) a m w h later = later a m w h
  after_turn epfd turns (wait_failed eintr) a m w h later = later a m w h
  after_turn epfd turns (wait_failed ebadf) a m w h later = h.0
  after_turn epfd turns (wait_failed epipe) a m w h later = h.0
  after_turn epfd turns (wait_failed other) a m w h later = h.0
  after_turn epfd turns (occurred evs) a m w h later =
      then_loop epfd turns
        (on_occurrences sys kevent net queues protocols options clock loop evs a m w)
        (on_occurrences-AfterEvent epfd evs a m w h) later

  run_loop-ServesAndCloses :
      (epfd turns : ℕ) (a : Acceptor) (m : ConnectManager RouterProtocol) (w : W)
      → Holds epfd a m
      → ServesAndCloses epfd (loop_of turns a m w)
  unfolding run_loop
  run_loop-ServesAndCloses epfd zero a m w h = h.0
  run_loop-ServesAndCloses epfd (suc turns) a m w h =
      let (r, w₁) = queues.occurs a.poller.epfd w in
      after_turn epfd turns r a m w₁ h (run_loop-ServesAndCloses epfd turns)

  watched :
      (epfd : ℕ) (e : Option Errno)
      (next : Ended (Run × Acceptor × ConnectManager RouterProtocol × W)) (a : Acceptor)
      (m : ConnectManager RouterProtocol) (w : W)
      → IsServing m
      → ServesAndCloses epfd next
      → ServesAndCloses epfd (elim e [ some x ↦ ended (failed x, a, m, w) | none ↦ next ])
  watched epfd (some x) next a m w s later = s
  watched epfd none next a m w s later = later

  made :
      (r : CreateResult) (w w' : W) (a : Acceptor)
      → with_poller (new_poller r) w ≡ some (a, w')
      → a.eventfd ≡ 0
  unfolding with_poller new_poller
  made (create_failed e) w w' a h = cc
  made (created epfd) w w' a h = cc

  -- Run of the acceptor that newAcceptor made, for any number of turns of its loop, in router mode, with
  -- a poller for every id and registrations that succeed, on a manager whose lock is free and that
  -- holds served connections: it neither panics nor waits for ever on the lock, the manager is still
  -- such, and where it returns nil its last calls have closed descriptor 0 and its own queue.
  pub run-ServesAndCloses :
      (w₀ w₁ : W) (turns listener : ℕ) (a : Acceptor) (m : ConnectManager RouterProtocol) (w : W)
      → new_acceptor queues w₀ ≡ some (a, w₁)
      → IsServing m
      → ServesAndCloses a.poller.epfd
          (run sys kevent net queues protocols options clock loop turns listener a m w)
  unfolding new_acceptor run
  run-ServesAndCloses w₀ w₁ turns listener a m w new s =
      let q = a.poller.epfd in
      let (e₁, v₁) = queues.add_user q w in
      let (e₂, v₂) = add_read kevent a.poller listener 0 v₁ in
      let h : Holds q a m = (s, made _ _ _ a new, refl) in
      watched q e₁ (elim e₂ [ some x ↦ ended (failed x, a, m, v₂) | none ↦ loop_of turns a m v₂ ]) a
        m v₁ s
        (watched q e₂ (loop_of turns a m v₂) a m v₂ s (run_loop-ServesAndCloses q turns a m v₂ h))
