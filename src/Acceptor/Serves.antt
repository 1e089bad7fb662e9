-- ===== src/Acceptor/Serves.antt =====
-- server/acceptor_linux.go over server/router.go and server/connectmgr.go: the connections that the
-- acceptor makes can be served.
use netman.Common.{
  ℕ, ◌≡◌, refl, sym, subst, Bool, false, Option, none, some, ◌==◌, inl, arith, if◌then◌else◌,
}
use netman.Common.Int.{pos, pos_part, ◌+ℤ◌}
use netman.Errors.{Errno}
use netman.Kernel.{Sys, Net, returns, ctl_add, in_pri}
use netman.Epoll
use netman.Epoll.{Poller}
use netman.Host.{Host}
use netman.EventLoop as Loop
use netman.EventLoop.{EventLoop, poller_of, registered, add_read_at}
use netman.Connect.{BaseConnect, new_base_connect, set_ep_fd, set_poller}
use netman.Util.Queue.{new_queue}
use netman.Dispatch.{router_mode}
use netman.Manager.{
  ConnectManager, Ended, ended, blocked, panicked, ◌>>=◌, of_lock, add, lock, store, lookup,
}
use netman.Manager.Map.{store-IsMap, lookup-store}
use netman.Manager.Heartbeat.{holding}
use netman.Router.{RouterProtocol, new_router_protocol}
use netman.Router.ClearAll.{router_connect}
use netman.Acceptor.{
  Acceptor, AcceptOptions, Protocols, Next, go_on, increment_id, after_add, attach, new_protocol,
}
use netman.Wait.Served.{IsServed, IsServing}
use netman.Manager.Entries.{store-AllEntries}

-- The protocols of a server in router mode, with any other one in place of the websocket's.
abbrev pub router_protocols :
    {W : Type 0} → Sys W → Host W → (BaseConnect → RouterProtocol) → Protocols RouterProtocol W
router_protocols sys host websocket = record {
  new_router_protocol = new_router_protocol;
  new_websocket_protocol = websocket;
  base = λ c. c.base;
  with_base = λ c b. record c { base = b };
  close = (router_connect sys host).close;
}

pub add_free :
    {C : Type 0} (m : ConnectManager C) (fd : ℕ) (c : C)
    → m.locked ≡ false
    → add m fd c ≡ some (holding (store fd c m.connects))
unfolding add lock
add_free m fd c free = ground arith

-- Every id has a poller, and new descriptors can be registered with it.
pub record Registers {W : Type 0} (sys : Sys W) (loop : EventLoop) : Type 0 where
  pub polled : (id : ℕ) → (p : Poller) × (poller_of loop id ≡ some p)
  pub registers : (epfd id fd : ℕ) (w : W) → (sys.epoll_ctl epfd (ctl_add in_pri id) fd w).0 ≡ none

-- A connection that has just been attached to a poller.
new-IsServed :
    (id fd : ℕ) (has_hooks tls_enable : Bool) (now : ℕ) (p : Poller)
    → IsServed fd (
        new_router_protocol
          (set_poller (set_ep_fd (new_base_connect id fd false has_hooks tls_enable now) p.epfd) p))
unfolding new_router_protocol new_base_connect set_poller set_ep_fd new_queue
new-IsServed id fd has_hooks tls_enable now p = record {
  under = refl;
  tcp = refl;
  queued = record { attached = (p, refl); drained = λ h. refl };
  valid = inl (record { no_packet = refl; no_bytes = refl });
}

module _ {W : Type 0} (sys : Sys W) (net : Net W) (host : Host W)
    (websocket : BaseConnect → RouterProtocol) (options : AcceptOptions) (clock : W → ℕ)
    (loop : EventLoop) where
  abbrev pub protocols : Protocols RouterProtocol W
  protocols = router_protocols sys host websocket

  -- The poller of the id was asked to watch the descriptor, and nothing else was done.
  abbrev Watched : ℕ → ℕ → W → W → Type 0
  Watched fd id w₀ w =
      (p : Poller) × (poller_of loop id ≡ some p)
      × (w ≡ (sys.epoll_ctl p.epfd (ctl_add in_pri id) fd w₀).1)

  -- What a call leaves that has taken the connection on `fd`, from the manager `m₀` and the world `w₀`:
  -- the next id is given, and the manager holds the connection, which the poller of its id watches, and
  -- under the other descriptors what it held, all of them served.
  abbrev pub Attached :
      ℕ
      → Acceptor
      → ConnectManager RouterProtocol
      → W
      → Ended (Next × Acceptor × ConnectManager RouterProtocol × W)
      → Type 0
  Attached fd a m₀ w₀ (ended (n, a', m, w)) =
      (n ≡ go_on)
      × (a'.conn_id ≡ a.conn_id +ℤ pos 1)
      × IsServing m
      × ((c : RouterProtocol) × (c.id ≡ pos_part a'.conn_id)
          × (c.poller ≡ poller_of loop c.id)
          × ((k : ℕ) → lookup k m.connects ≡ (if fd == k then some c else lookup k m₀.connects)))
      × Watched fd (pos_part a'.conn_id) w₀ w
  Attached fd a m₀ w₀ blocked = ⊥
  Attached fd a m₀ w₀ panicked = ⊥

  after_add-Attached :
      (a a' : Acceptor) (c : RouterProtocol) (m : ConnectManager RouterProtocol) (w₀ w : W)
      → a'.conn_id ≡ a.conn_id +ℤ pos 1
      → IsServed c.fd c
      → c.id ≡ pos_part a'.conn_id
      → c.poller ≡ poller_of loop c.id
      → IsServing m
      → Watched c.fd (pos_part a'.conn_id) w₀ w
      → Attached c.fd a m w₀
          (after_add sys net protocols options clock loop (returns none) a' c m w)
  unfolding after_add
  after_add-Attached a a' c m w₀ w next v id at s watched =
      subst (λ r. Attached c.fd a m w₀ (of_lock r >>= λ m'. ended (go_on, a', m', w)))
        (sym (add_free m c.fd c s.free))
        (
          refl,
          next,
          record {
            free = refl;
            is_map = store-IsMap c.fd c m.connects s.is_map;
            all = store-AllEntries IsServed c.fd c m.connects v s.all;
          },
          (c, id, at, λ k. lookup-store c.fd k c m.connects),
          watched,
        )

  registered-Attached :
      (fd : ℕ) (a a' : Acceptor) (e : Option Errno) (p : Poller) (m : ConnectManager RouterProtocol)
      (now : ℕ) (w₀ w : W)
      → e ≡ none
      → poller_of loop (pos_part a'.conn_id) ≡ some p
      → a'.conn_id ≡ a.conn_id +ℤ pos 1
      → IsServing m
      → Watched fd (pos_part a'.conn_id) w₀ w
      → let base =
          new_base_connect
            (pos_part a'.conn_id)
            fd
            false
            options.has_hooks
            options.tls_enable
            now in
        let (r, base') = registered p base e in
        Attached fd a m w₀ (
          after_add sys net protocols options clock loop r a'
            (record (new_router_protocol base) { base = base' })
            m
            w)
  unfolding new_router_protocol new_base_connect set_poller set_ep_fd
  registered-Attached fd a a' none p m now w₀ w done polled next s watched =
      let base =
        new_base_connect (pos_part a'.conn_id) fd false options.has_hooks options.tls_enable now in
      after_add-Attached a a' (new_router_protocol (set_poller (set_ep_fd base p.epfd) p)) m w₀ w
        next (new-IsServed (pos_part a'.conn_id) fd options.has_hooks options.tls_enable now p) refl
        (sym polled) s watched
  registered-Attached fd a a' (some x) p m now w₀ w done polled next s watched = cc

  -- AddRead at a poller, and what follows it.
  abbrev pub add_at :
      Acceptor
      → Option Poller
      → RouterProtocol
      → ConnectManager RouterProtocol
      → W
      → Ended (Next × Acceptor × ConnectManager RouterProtocol × W)
  add_at a o c m w =
      let (r, base', w') = add_read_at sys o c.base w in
      after_add sys net protocols options clock loop r a (record c { base = base' }) m w'

  -- In router mode, with a poller for every id and registrations that succeed, on a manager with a free
  -- lock and served connections, a connection whose options are set is given the next id, and the
  -- poller of that id is asked to watch its descriptor. The manager then holds it under its descriptor,
  -- attached to that poller, and under every other descriptor what it held; all of them are served.
  pub attach-Attached :
      (fd : ℕ) (a : Acceptor) (m : ConnectManager RouterProtocol) (w : W)
      → options.application ≡ router_mode
      → Registers sys loop
      → IsServing m
      → Attached fd a m w (attach sys net protocols options clock loop fd a m w)
  unfolding attach increment_id Loop.add_read Epoll.add_read new_router_protocol new_base_connect
  attach-Attached fd a m w mode reg s =
      let a' = (increment_id a).1 in
      let id = pos_part a'.conn_id in
      let (p, polled) = reg.polled id in
      let base = new_base_connect id fd false options.has_hooks options.tls_enable (clock w) in
      let made = new_protocol sys net protocols options clock loop in
      subst (λ k. Attached fd a m w (add_at a' (poller_of loop (made k base).id) (made k base) m w))
        (sym mode)
        (subst (λ o. Attached fd a m w (add_at a' o (new_router_protocol base) m w)) (sym polled)
          (registered-Attached fd a a' _ p m (clock w) w _ (reg.registers p.epfd id fd w) polled
            refl s (p, polled, refl)))
