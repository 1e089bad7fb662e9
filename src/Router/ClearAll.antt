-- ===== src/Router/ClearAll.antt =====
-- server/connectmgr.go, ClearAll, on the connections of server/router.go.
use netman.Common.{ℕ, ◌≡◌, refl, true, false, none, some, List, ◌∷◌, arith, if◌then◌else◌, ◌&&◌, ap}
use netman.Kernel.{Sys}
use netman.Epoll
use netman.Host.{Host}
use netman.Manager.{
  ConnectManager, Connect, ended, blocked, lock, remove, delete, close_each, clear_all, ◌>>=◌,
}
use netman.Manager.Heartbeat.{holding}
use netman.Router.{RouterProtocol}
use netman.Router.Close.{close, close_at, after_remove, is_none}

module _ {W : Type 0} (sys : Sys W) (host : Host W) where
  -- A RouterProtocol as an iface.IConnect; a connection in a manager has a poller.
  abbrev pub router_connect : Connect RouterProtocol W
  router_connect = record {
    fd = λ c. c.fd;
    epfd = λ c. c.epfd;
    last_message_time = λ c. c.last_message_time;
    epoll_remove = λ c w. elim c.poller [ none ↦ w | some p ↦ (Epoll.remove sys p c.fd w).1 ];
    close = λ c m w. close sys host c m w >>= λ (e, c', m', w'). ended (m', w');
  }

  -- Close of a connection with a poller, by the goroutine that holds the manager's lock.
  close-locked :
      (c : RouterProtocol) (m : ConnectManager RouterProtocol) (w : W) (p : Epoll.Poller)
      → m.locked ≡ true
      → c.poller ≡ some p
      → router_connect.close c m w ≡ blocked
  unfolding close close_at after_remove remove lock
  close-locked c m w p held attached = ground arith

  -- ClearAll on a manager with a free lock never returns, once the first connection it meets has a
  -- poller: ClearAll holds the lock, and the connection's Close waits for it to remove itself.
  pub clear_all_blocks :
      (m : ConnectManager RouterProtocol) (k : ℕ) (c : RouterProtocol)
      (es : List (ℕ × RouterProtocol)) (p : Epoll.Poller) (w : W)
      → m.locked ≡ false
      → m.connects ≡ (k, c) ∷ es
      → c.poller ≡ some p
      → clear_all sys router_connect m w ≡ blocked
  unfolding clear_all close_each lock
  clear_all_blocks m k c es p w free entries attached = rw free (
      rw entries (
        rw (close-locked c (record { connects = (k, c) ∷ es; locked = true }) w p refl attached)
          refl))

  -- Close of a connection with a poller, on a manager whose lock is free, returns and removes the
  -- connection from the manager.
  pub close_removes :
      (c : RouterProtocol) (es : List (ℕ × RouterProtocol)) (w : W)
      → ((p : Epoll.Poller) × (c.poller ≡ some p))
      → (w' : W) × (router_connect.close c (holding es) w ≡ ended (holding (delete c.fd es), w'))
  unfolding close close_at after_remove remove lock
  close_removes c es w (p, at) =
      let w₀ = (Epoll.remove sys p c.fd w).1 in
      let (e, w₁) = sys.close c.fd w₀ in
      (
        if c.has_hooks && is_none e then host.on_close c.id w₁ else w₁,
        ap (λ q. close_at sys host q c (holding es) w >>= λ (e', c', m', w'). ended (m', w')) at,
      )
