-- ===== src/Epoll.antt =====
-- eventloop/epoll.go: the registrations that a Poller makes with its epoll instance.
use netman.Common.{ℕ, Option}
use netman.Errors.{Errno}
use netman.Kernel.{Sys, in_pri, out, ctl_add, ctl_mod, ctl_del}

-- All pollers of a server share its connection manager, which is threaded through the model instead.
pub record Poller : Type 0 where
  pub epfd : ℕ

module _ {W : Type 0} (sys : Sys W) where
  unfoldable pub add_read : Poller → ℕ → ℕ → W → Option Errno × W
  add_read p fd conn_id = sys.epoll_ctl p.epfd (ctl_add in_pri conn_id) fd

  unfoldable pub add_write : Poller → ℕ → ℕ → W → Option Errno × W
  add_write p fd conn_id = sys.epoll_ctl p.epfd (ctl_add out conn_id) fd

  unfoldable pub mod_write : Poller → ℕ → ℕ → W → Option Errno × W
  mod_write p fd conn_id = sys.epoll_ctl p.epfd (ctl_mod out conn_id) fd

  unfoldable pub mod_read : Poller → ℕ → ℕ → W → Option Errno × W
  mod_read p fd conn_id = sys.epoll_ctl p.epfd (ctl_mod in_pri conn_id) fd

  unfoldable pub remove : Poller → ℕ → W → Option Errno × W
  remove p fd = sys.epoll_ctl p.epfd ctl_del fd

  unfoldable pub close : Poller → W → Option Errno × W
  close p = sys.close p.epfd
