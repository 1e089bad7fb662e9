-- ===== src/EventLoop.antt =====
-- eventloop/event.go, and NewPoller of eventloop/epoll.go: the pollers of a server, and the one that a
-- connection belongs to.
pub mod Choice
use netman.Common.{
  ℕ, zero, suc, ◌%◌, Option, none, some, List, [], ◌∷◌, replicate, get_elem?, ◌==◌, if◌then◌else◌,
}
use netman.Errors.{Errno}
use netman.Kernel.{Sys, CreateResult, created, create_failed, Call, returns, panics}
use netman.Epoll
use netman.Epoll.{Poller}
use netman.Connect.{BaseConnect, set_ep_fd, set_poller}

-- The pollers are nil until Init makes them.
pub record EventLoop : Type 0 where
  pub num : ℕ
  pub pollers : List (Option Poller)

unfoldable pub new_event_loop : ℕ → EventLoop
new_event_loop num = record { num = num; pollers = replicate num none }

-- Init stops at the first error, and the later pollers stay nil.
abbrev pub init_with :
    {W : Type 0}
    → ℕ
    → CreateResult
    → Option Errno × List (Option Poller) × W
    → W
    → Option Errno × List (Option Poller) × W
init_with left (create_failed x) later w = (some x, none ∷ replicate left none, w)
init_with left (created fd) (e, ps, w') w = (e, some (record { epfd = fd }) ∷ ps, w')

-- The poller at the index, where there is one that is not nil.
abbrev pub not_nil : Option (Option Poller) → Option Poller
not_nil none = none
not_nil (some p) = p

-- The index is the connection's id modulo the number of pollers; without pollers this panics, as the
-- call of a nil poller does, and both are `none`.
unfoldable pub poller_of : EventLoop → ℕ → Option Poller
poller_of l id = if l.num == 0 then none else not_nil (get_elem? l.pollers (id % l.num))

-- AddRead, what follows the registration.
abbrev pub registered : Poller → BaseConnect → Option Errno → Call (Option Errno) × BaseConnect
registered p c (some e) = (returns (some e), c)
registered p c none = (returns none, set_poller (set_ep_fd c p.epfd) p)

module _ {W : Type 0} (create : W → CreateResult × W) where
  unfoldable pub init_from : ℕ → W → Option Errno × List (Option Poller) × W
  init_from zero w = (none, [], w)
  init_from (suc left) w =
      let (r, w') = create w in let later = init_from left w' in init_with left r later w'

  unfoldable pub init : EventLoop → W → Option Errno × EventLoop × W
  init l w = let (e, ps, w') = init_from l.num w in (e, record l { pollers = ps }, w')

module _ {W : Type 0} (sys : Sys W) where
  abbrev pub add_read_at : Option Poller → BaseConnect → W → Call (Option Errno) × BaseConnect × W
  add_read_at none c w = (panics, c, w)
  add_read_at (some p) c w =
      let (e, w') = Epoll.add_read sys p c.fd c.id w in
      let (r, c') = registered p c e in (r, c', w')

  unfoldable pub add_read : EventLoop → BaseConnect → W → Call (Option Errno) × BaseConnect × W
  add_read l c w = add_read_at (poller_of l c.id) c w

  abbrev pub remove_at : Option Poller → BaseConnect → W → Call (Option Errno) × W
  remove_at none c w = (panics, w)
  remove_at (some p) c w = let (e, w') = Epoll.remove sys p c.fd w in (returns e, w')

  unfoldable pub remove : EventLoop → BaseConnect → W → Call (Option Errno) × W
  remove l c w = remove_at (poller_of l c.id) c w

  -- Stop closes every poller; a nil one panics.
  unfoldable pub stop_each : List (Option Poller) → W → Call W
  unfolding Epoll.close
  stop_each [] w = returns w
  stop_each (none ∷ ps) w = panics
  stop_each (some p ∷ ps) w = stop_each ps (Epoll.close sys p w).1

  unfoldable pub stop : EventLoop → W → Call W
  unfolding stop_each
  stop l w = stop_each l.pollers w
