-- ===== src/Darwin/Leaving.antt =====
-- server/acceptor_darwin.go: what the acceptor has closed when it leaves its loop.
use netman.Common.{ℕ, ◌≡◌, refl, true, Option, none, some, ◌==◌, if◌then◌else◌, choose}
use netman.Errors.{Errno, eagain, eintr, ebadf, epipe, other}
use netman.Kernel.{Sys, Net, AcceptResult, accepted, accept_failed, Call, returns, panics}
use netman.Epoll
use netman.EventLoop.{EventLoop}
use netman.Manager
use netman.Manager.{ConnectManager, Ended, ended, blocked, panicked, ◌>>=◌, of_lock}
use netman.Acceptor
use netman.Acceptor.{
  Acceptor, AcceptOptions, Protocols, Next, go_on, leave, Run, returned, failed, running,
  after_accept, after_add, after_option, attach,
}
use netman.Kqueue.{Kevent, on_kqueue, register, remove}
use netman.Kqueue.Waiting.{Occurrence}
use netman.Darwin.{Queues, close, accept, on_occurrence}

module _ {W : Type 0} (sys : Sys W) where
  -- The last calls closed the acceptor's event and then its queue.
  abbrev pub HasClosed : ℕ → ℕ → W → Type 0
  HasClosed eventfd epfd w' = (w : W) × (w' ≡ (sys.close epfd (sys.close eventfd w).1).1)

  -- The acceptor keeps its event and its queue, and has closed them where it leaves.
  abbrev pub Keeps : {C : Type 0} → ℕ → ℕ → Ended (Next × Acceptor × ConnectManager C × W) → Type 0
  Keeps eventfd epfd (ended (go_on, a, m, w)) = (a.eventfd ≡ eventfd) × (a.poller.epfd ≡ epfd)
  Keeps eventfd epfd (ended (leave, a, m, w)) = HasClosed eventfd epfd w
  Keeps eventfd epfd blocked = Unit {0}
  Keeps eventfd epfd panicked = Unit {0}

module _ {C W : Type 0} (sys : Sys W) (kevent : Kevent W) (net : Net W) (queues : Queues W)
    (protocols : Protocols C W) (options : AcceptOptions) (clock : W → ℕ) (loop : EventLoop) where
  abbrev pub system : Sys W
  system = on_kqueue kevent sys

  abbrev pub KeepsOf : Acceptor → Ended (Next × Acceptor × ConnectManager C × W) → Type 0
  KeepsOf a r = Keeps sys a.eventfd a.poller.epfd r

  going_on :
      (a : Acceptor) (r : Ended (ConnectManager C × W))
      → KeepsOf a (r >>= λ (m', w'). ended (go_on, a, m', w'))
  going_on a (ended r) = (refl, refl)
  going_on a blocked = tt
  going_on a panicked = tt

  added :
      (a : Acceptor) (r : Ended (ConnectManager C)) (w : W)
      → KeepsOf a (r >>= λ m'. ended (go_on, a, m', w))
  added a (ended r) w = (refl, refl)
  added a blocked w = tt
  added a panicked w = tt

  after_add-Keeps :
      (r : Call (Option Errno)) (a : Acceptor) (c : C) (m : ConnectManager C) (w : W)
      → KeepsOf a (after_add system net protocols options clock loop r a c m w)
  unfolding after_add
  after_add-Keeps panics a c m w = tt
  after_add-Keeps (returns (some e)) a c m w = going_on a (protocols.close c m w)
  after_add-Keeps (returns none) a c m w =
      added a (of_lock (Manager.add m (protocols.base c).fd c)) w

  attach-Keeps :
      (fd : ℕ) (a : Acceptor) (m : ConnectManager C) (w : W)
      → KeepsOf a (attach system net protocols options clock loop fd a m w)
  unfolding attach Acceptor.increment_id
  attach-Keeps fd a m w = after_add-Keeps _ (Acceptor.increment_id a).1 _ m _

  after_option-Keeps :
      (e : Option Errno) (fd : ℕ) (next : W → Ended (Next × Acceptor × ConnectManager C × W))
      (a : Acceptor) (m : ConnectManager C) (w : W)
      → ((w' : W) → KeepsOf a (next w'))
      → KeepsOf a (after_option system net protocols options clock loop e fd next a m w)
  unfolding after_option
  after_option-Keeps (some e) fd next a m w h = (refl, refl)
  after_option-Keeps none fd next a m w h = h w

  closed : (a : Acceptor) (w : W) → HasClosed sys a.eventfd a.poller.epfd (close sys kevent net a w)
  unfolding close Acceptor.close Epoll.remove Epoll.close register remove
  closed a w = (w, refl)

  after_accept-Keeps :
      (r : AcceptResult) (a : Acceptor) (m : ConnectManager C) (w : W)
      → KeepsOf a (after_accept system net protocols options clock loop r a m w)
  unfolding after_accept close
  after_accept-Keeps (accept_failed ebadf) a m w = closed a w
  after_accept-Keeps (accept_failed eagain) a m w = (refl, refl)
  after_accept-Keeps (accept_failed eintr) a m w = (refl, refl)
  after_accept-Keeps (accept_failed epipe) a m w = (refl, refl)
  after_accept-Keeps (accept_failed other) a m w = (refl, refl)
  after_accept-Keeps (accepted fd) a m w =
      let (e, w₁) = if options.tls_enable then (none, w) else sys.set_nonblock fd true w in
      let attached = attach system net protocols options clock loop fd a m in
      let later = λ (w₁ : W).
        let (e', w₂) = net.no_delay fd w₁ in
        after_option system net protocols options clock loop e' fd attached a m w₂ in
      after_option-Keeps e fd later a m w₁
        (λ w₁. after_option-Keeps _ fd attached a m _ (attach-Keeps fd a m))

  pub on_occurrence-Keeps :
      (ev : Occurrence) (a : Acceptor) (m : ConnectManager C) (w : W)
      → KeepsOf a (on_occurrence sys kevent net queues protocols options clock loop ev a m w)
  unfolding on_occurrence accept
  on_occurrence-Keeps ev a m w =
      choose (KeepsOf a) (ev.ident == a.eventfd) (closed a w)
        (after_accept-Keeps (net.accept ev.ident w).0 a m (net.accept ev.ident w).1)
