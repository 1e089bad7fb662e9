-- ===== src/Connect/Getters.antt =====
-- server/baseconnect.go: the getters, and the methods that a connection may override.
use netman.Common.{ℕ, Bool, Option, none, Bytes}
use netman.Errors.{Error}
use netman.Epoll.{Poller}
use netman.Connect.{BaseConnect}

-- The getters that the program calls.
unfoldable pub get_id : BaseConnect → ℕ
get_id c = c.id

unfoldable pub get_fd : BaseConnect → ℕ
get_fd c = c.fd

unfoldable pub get_ep_fd : BaseConnect → ℕ
get_ep_fd c = c.epfd

unfoldable pub get_poller : BaseConnect → Option Poller
get_poller c = c.poller

unfoldable pub get_last_message_time : BaseConnect → ℕ
get_last_message_time c = c.last_message_time

unfoldable pub get_tls_enable : BaseConnect → Bool
get_tls_enable c = c.tls_enable

unfoldable pub get_handshake_completed : BaseConnect → Bool
get_handshake_completed c = c.handshake_completed

unfoldable pub is_udp : BaseConnect → Bool
is_udp c = c.is_udp

-- Text, Binary and Send of a connection that does not override them: the count and the error.
unfoldable pub base_text : Bytes → ℕ × Option Error
base_text bs = (0, none)

unfoldable pub base_binary : Bytes → ℕ × Option Error
base_binary bs = (0, none)

unfoldable pub base_send : ℕ → Bytes → ℕ × Option Error
base_send msg_id bs = (0, none)

-- Close that nothing overrides.
unfoldable pub base_close : BaseConnect → Option Error
base_close c = none
