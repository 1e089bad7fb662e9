-- ===== src/Acceptor/Refused.antt =====
-- server/acceptor_linux.go: a connection that the event loop does not take.
use netman.Common.{ℕ, ◌≡◌, refl, sym, subst, false, Option, none, some}
use netman.Common.Int.{pos, pos_part, ◌+ℤ◌}
use netman.Errors.{Errno}
use netman.Kernel.{Sys, Net, ctl_add, in_pri}
use netman.Epoll
use netman.Epoll.{Poller}
use netman.Host.{Host}
use netman.EventLoop as Loop
use netman.EventLoop.{EventLoop, poller_of, registered, add_read_at}
use netman.Connect.{BaseConnect, new_base_connect}
use netman.Dispatch.{router_mode}
use netman.Manager.{ConnectManager, panicked}
use netman.Router.{RouterProtocol, new_router_protocol}
use netman.Router.Close.{close, close_at}
use netman.Acceptor.{Acceptor, AcceptOptions, attach, after_add, increment_id, new_protocol}
use netman.Acceptor.Serves.{router_protocols, add_at}

module _ {W : Type 0} (sys : Sys W) (net : Net W) (host : Host W)
    (websocket : BaseConnect → RouterProtocol) (options : AcceptOptions) (clock : W → ℕ)
    (loop : EventLoop) where
  refused-panics :
      (a : Acceptor) (e : Option Errno) (x : Errno) (p : Poller) (id fd now : ℕ)
      (m : ConnectManager RouterProtocol) (w : W)
      → e ≡ some x
      → let base = new_base_connect id fd false options.has_hooks options.tls_enable now in
        let (r, base') = registered p base e in
        after_add sys net
          (router_protocols sys host websocket)
          options
          clock
          loop
          r
          a
          (record (new_router_protocol base) { base = base' })
          m
          w
        ≡ panicked
  unfolding after_add new_router_protocol new_base_connect close close_at
  refused-panics a none x p id fd now m w h = cc
  refused-panics a (some y) x p id fd now m w h = refl

  -- In router mode, where epoll refuses a new connection's descriptor, the acceptor panics: it closes
  -- the connection, which has no poller yet.
  pub attach_panics :
      (fd : ℕ) (a : Acceptor) (m : ConnectManager RouterProtocol) (w : W) (p : Poller) (x : Errno)
      → options.application ≡ router_mode
      → poller_of loop (pos_part (a.conn_id +ℤ pos 1)) ≡ some p
      → (sys.epoll_ctl p.epfd (ctl_add in_pri (pos_part (a.conn_id +ℤ pos 1))) fd w).0 ≡ some x
      → attach sys net (router_protocols sys host websocket) options clock loop fd a m w ≡ panicked
  unfolding attach increment_id Loop.add_read Epoll.add_read new_router_protocol new_base_connect
  attach_panics fd a m w p x mode polled refused =
      let a' = (increment_id a).1 in
      let id = pos_part a'.conn_id in
      let base = new_base_connect id fd false options.has_hooks options.tls_enable (clock w) in
      let made = new_protocol sys net (router_protocols sys host websocket) options clock loop in
      let adding = add_at sys net host websocket options clock loop a' in
      subst (λ k. adding (poller_of loop (made k base).id) (made k base) m w ≡ panicked) (sym mode)
        (subst (λ o. adding o (new_router_protocol base) m w ≡ panicked) (sym polled)
          (refused-panics a' _ x p id fd (clock w) m _ refused))
