-- ===== src/Socket.antt =====
-- server/socket_linux.go: the listening socket of a TCP server.
use netman.Common.{ℕ, ◌/◌, Option, none, some, Bytes, leb, if◌then◌else◌}
use netman.Common.Int.{ℤ, pos_part}
use netman.Errors.{Errno}
use netman.Kernel.{CreateResult, created, create_failed}

-- The options of a socket that the program sets.
pub data SocketOption : Type 0 where
  reuse_addr keep_alive keep_interval keep_idle keep_count : SocketOption

-- `resolve` is net.ResolveTCPAddr, as far as its port.
pub record SocketSys (W : Type 0) : Type 0 where
  pub socket : W → CreateResult × W
  pub set_option : ℕ → SocketOption → ℕ → W → Option Errno × W
  pub resolve : Bytes → Option ℕ
  pub bind : ℕ → ℕ → W → Option Errno × W
  pub listen : ℕ → W → Option Errno × W

-- `if err != nil { return err }`.
abbrev pub or_return : {W : Type 0} → Option Errno × W → (W → Option Errno × W) → Option Errno × W
or_return (some e, w) next = (some e, w)
or_return (none, w) next = next w

-- `if err != nil { log.Panicln(err) }`; `none` is the panic.
abbrev pub or_panic : {W A : Type 0} → Option Errno × W → (W → Option A) → Option A
or_panic (some e, w) next = none
or_panic (none, w) next = next w

module _ {W : Type 0} (sockets : SocketSys W) where
  unfoldable pub set_keep_alive : ℕ → ℕ → W → Option Errno × W
  set_keep_alive fd secs w =
      if leb secs 0
      then (none, w)
      else or_return (sockets.set_option fd keep_alive 1 w) (λ w.
        or_return (sockets.set_option fd keep_interval secs w) (λ w.
          or_return (sockets.set_option fd keep_idle secs w) (sockets.set_option fd keep_count 3)))

  unfoldable pub bind_listen : ℕ → Option ℕ → W → Option (ℕ × W)
  bind_listen fd none w = none
  bind_listen fd (some port) w =
      or_panic (sockets.bind fd port w) (λ w. or_panic (sockets.listen fd w) (λ w. some (fd, w)))

  unfoldable pub prepare : ℕ → Bytes → ℤ → W → Option (ℕ × W)
  unfolding set_keep_alive bind_listen
  prepare fd address duration w =
      let secs = pos_part duration / 1000000000 in
      or_panic (if leb 1 secs then set_keep_alive fd secs w else (none, w)) (λ w.
        or_panic (sockets.set_option fd reuse_addr 1 w)
          (λ w. bind_listen fd (sockets.resolve address) w))

  abbrev pub prepared : Bytes → ℤ → CreateResult × W → Option (ℕ × W)
  prepared address duration (create_failed e, w) = none
  prepared address duration (created fd, w) = prepare fd address duration w

  -- createSocket.
  unfoldable pub create_socket : Bytes → ℤ → W → Option (ℕ × W)
  create_socket address duration w = prepared address duration (sockets.socket w)
