-- ===== src/Router/Close.antt =====
-- server/router.go, Close: the connection leaves its poller and the manager, and then closes.
use netman.Common.{Bool, true, false, ◌&&◌, Option, none, some, [], if◌then◌else◌}
use netman.Errors.{Errno}
use netman.Kernel.{Sys}
use netman.Epoll
use netman.Epoll.{Poller}
use netman.Host.{Host}
use netman.Manager
use netman.Manager.{ConnectManager, Ended, ended, blocked, panicked}
use netman.Router.{RouterProtocol}

-- The source sets the buffer to nil.
unfoldable pub forget : RouterProtocol → RouterProtocol
forget c = record c { pack_data_length = 0; read_buffer = [] }

abbrev pub is_none {ℓ} : {A : Type ℓ} → Option A → Bool
is_none none = true
is_none (some a) = false

module _ {C W : Type 0} (sys : Sys W) (host : Host W) where
  unfoldable pub after_remove :
      Option (ConnectManager C)
      → RouterProtocol
      → W
      → Ended (Option Errno × RouterProtocol × ConnectManager C × W)
  unfolding forget
  after_remove none c w = blocked
  after_remove (some m) c w =
      let (e, w₁) = sys.close c.fd w in
      let w₂ = if c.has_hooks && is_none e then host.on_close c.id w₁ else w₁ in
      ended (e, forget c, m, w₂)

  unfoldable pub close_at :
      Option Poller
      → RouterProtocol
      → ConnectManager C
      → W
      → Ended (Option Errno × RouterProtocol × ConnectManager C × W)
  unfolding after_remove Epoll.remove
  close_at none c m w = panicked
  close_at (some p) c m w = after_remove (Manager.remove m c.fd) c (Epoll.remove sys p c.fd w).1

  unfoldable pub close :
      RouterProtocol
      → ConnectManager C
      → W
      → Ended (Option Errno × RouterProtocol × ConnectManager C × W)
  unfolding close_at
  close c m w = close_at c.poller c m w
