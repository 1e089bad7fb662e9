-- ===== src/Darwin/Sockets.antt =====
-- server/socket_darwin.go: the listening socket of a TCP server. `unsupported` is unix.ENOPROTOOPT.
use netman.Common.{ℕ, ◌/◌, Bool, Option, none, some, Bytes, leb, if◌then◌else◌}
use netman.Common.Int.{ℤ, pos_part}
use netman.Errors.{Errno}
use netman.Kernel.{CreateResult, created, create_failed}
use netman.Socket.{
  SocketSys, or_return, or_panic, bind_listen, keep_alive, keep_interval, reuse_addr,
}

module _ {W : Type 0} (sockets : SocketSys W) (unsupported : Errno → Bool) where
  -- The switch on the second option's error.
  unfoldable pub if_supported : Option Errno × W → Option Errno × W
  if_supported (none, w) = (none, w)
  if_supported (some e, w) = if unsupported e then (none, w) else (some e, w)

  unfoldable pub set_keep_alive : ℕ → ℕ → W → Option Errno × W
  unfolding if_supported
  set_keep_alive fd secs w =
      if leb secs 0
      then (none, w)
      else or_return (sockets.set_option fd keep_alive 1 w)
          (λ w. if_supported (sockets.set_option fd keep_interval secs w))

  unfoldable pub prepare : ℕ → Bytes → ℤ → W → Option (ℕ × W)
  unfolding set_keep_alive bind_listen
  prepare fd address duration w =
      let secs = pos_part duration / 1000000000 in
      or_panic (if leb 1 secs then set_keep_alive fd secs w else (none, w)) (λ w.
        or_panic (sockets.set_option fd reuse_addr 1 w)
          (λ w. bind_listen sockets fd (sockets.resolve address) w))

  abbrev pub prepared : Bytes → ℤ → CreateResult × W → Option (ℕ × W)
  prepared address duration (create_failed e, w) = none
  prepared address duration (created fd, w) = prepare fd address duration w

  -- createSocket.
  unfoldable pub create_socket : Bytes → ℤ → W → Option (ℕ × W)
  create_socket address duration w = prepared address duration (sockets.socket w)
