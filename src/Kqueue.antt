-- ===== src/Kqueue.antt =====
-- eventloop/kqueue.go: the registrations that a Poller makes with its kernel queue, where the program
-- is built for darwin or a BSD.
pub mod Filters
pub mod Waiting
pub mod Same
use netman.Common.{ℕ, Option, none, some}
use netman.Errors.{Errno}
use netman.Epoll.{Poller}
use netman.Kernel.{Sys, Control, ctl_add, ctl_mod, ctl_del, in_pri, out}

pub data Filter : Type 0 where
  evfilt_read evfilt_write : Filter

pub data Flags : Type 0 where
  ev_add ev_delete : Flags

-- unix.Kevent_t; the program leaves its other fields empty.
pub record Change : Type 0 where
  pub ident : ℕ
  pub filter : Filter
  pub flags : Flags
  pub data_ : ℕ

-- unix.Kevent with one change and no room for events, by the queue's descriptor.
abbrev pub Kevent : Type 0 → Type 0
Kevent W = ℕ → Change → W → Option Errno × W

module _ {W : Type 0} (kevent : Kevent W) where
  unfoldable pub add_read : Poller → ℕ → ℕ → W → Option Errno × W
  add_read p fd conn_id =
      kevent p.epfd (record { ident = fd; filter = evfilt_read; flags = ev_add; data_ = conn_id })

  unfoldable pub add_write : Poller → ℕ → ℕ → W → Option Errno × W
  add_write p fd conn_id =
      kevent p.epfd (record { ident = fd; filter = evfilt_write; flags = ev_add; data_ = conn_id })

  -- From `if err != nil` in ModWrite on.
  unfoldable pub then_write : Poller → ℕ → ℕ → Option Errno × W → Option Errno × W
  then_write p fd conn_id (some e, w) = (some e, w)
  then_write p fd conn_id (none, w) = add_write p fd conn_id w

  unfoldable pub mod_write : Poller → ℕ → ℕ → W → Option Errno × W
  mod_write p fd conn_id w =
      then_write p fd conn_id (
        kevent p.epfd (record { ident = fd; filter = evfilt_read; flags = ev_delete; data_ = 0 }) w)

  -- From `if err != nil` in ModRead on.
  unfoldable pub then_read : Poller → ℕ → ℕ → Option Errno × W → Option Errno × W
  then_read p fd conn_id (some e, w) = (some e, w)
  then_read p fd conn_id (none, w) = add_read p fd conn_id w

  unfoldable pub mod_read : Poller → ℕ → ℕ → W → Option Errno × W
  mod_read p fd conn_id w =
      then_read p fd conn_id (
        kevent p.epfd (record { ident = fd; filter = evfilt_write; flags = ev_delete; data_ = 0 })
          w)

-- The filters of a socket go with its last descriptor, so there is nothing to remove.
unfoldable pub remove : {W : Type 0} → Poller → ℕ → W → Option Errno × W
remove p fd w = (none, w)

unfoldable pub close : {W : Type 0} → Sys W → Poller → W → Option Errno × W
close sys p = sys.close p.epfd

-- The rest of the program calls the poller's methods by their names, which are those of epoll.go: what
-- each call of epoll_ctl there becomes in this build.
unfoldable pub register : {W : Type 0} → Kevent W → Poller → Control → ℕ → W → Option Errno × W
register kevent p (ctl_add in_pri conn_id) fd = add_read kevent p fd conn_id
register kevent p (ctl_add out conn_id) fd = add_write kevent p fd conn_id
register kevent p (ctl_mod in_pri conn_id) fd = mod_read kevent p fd conn_id
register kevent p (ctl_mod out conn_id) fd = mod_write kevent p fd conn_id
register kevent p ctl_del fd = remove p fd

-- The system of such a build, for the code that is common to both.
abbrev pub on_kqueue : {W : Type 0} → Kevent W → Sys W → Sys W
on_kqueue kevent sys = record sys {
  epoll_ctl = λ epfd ctl fd w. register kevent (record { epfd = epfd }) ctl fd w;
}
