-- ===== src/Errors.antt =====
-- util/errors.go, with the errors of the system and of Go's library that the code tests or returns,
-- and Go's pairs of a value and an error.
use mathlib.Core.Bool.{Bool, true, false}

pub data Errno : Type 0 where
  eagain eintr ebadf epipe : Errno
  other : Errno

pub data Error : Type 0 where
  eof unexpected_eof : Error
  errno : Errno → Error
  tls_error : Error
  head_bytes_length_fail router_not_found body_len_exceed_limit tls_handshake_un_finish : Error
  websocket_opcode_fail websocket_rsv_fail websocket_ping_payload_oversize : Error
  websocket_ctrl_message_must_not_fragmented websocket_must_utf8 websocket_protocol_error : Error
  udp_acceptor_from udp_not_packet udp_not_complete : Error
  unpack_message : Error → Error
  udp_socket_setup : Errno → Error

-- `(value, nil)` or `(nil, err)`.
pub data Result {ℓ} (A : Type ℓ) : Type ℓ where
  ok : A → Result A
  err : Error → Result A

-- `if err != nil { return err }`.
infixl 5 ◌>>=◌
abbrev pub ◌>>=◌ {ℓ κ} : {A : Type ℓ} {B : Type κ} → Result A → (A → Result B) → Result B
err failure >>= _ = err failure
ok value >>= next = next value

infixl 5 ◌>>◌
abbrev pub ◌>>◌ {ℓ κ} : {A : Type ℓ} {B : Type κ} → Result A → Result B → Result B
err failure >> _ = err failure
ok _ >> after = after

-- `if test { return err }`.
abbrev pub reject_if : Bool → Error → Result (Unit {0})
reject_if false _ = ok tt
reject_if true failure = err failure

-- What a decoder returns: `(nil, nil)`, `(message, nil)` or `(nil, err)`. `crash` is a panic, and
-- `stuck` is no Go value: the model's fuel ran out.
pub data Outcome {ℓ} (A : Type ℓ) : Type ℓ where
  nothing : Outcome A
  packet : A → Outcome A
  fail : Error → Outcome A
  crash : Outcome A
  stuck : Outcome A

-- How a part of a decoder ends: with the decoder's return, or by going on with the next part.
pub data Flow {ℓ} (A : Type ℓ) : Type ℓ where
  exit : Outcome A → Flow A
  go_on : Flow A

-- `err == unix.EBADF || err == unix.EPIPE`: the descriptor is gone.
abbrev pub is_gone : Error → Bool
is_gone (errno ebadf) = true
is_gone (errno epipe) = true
is_gone e = false

abbrev pub is_eof : Error → Bool
is_eof eof = true
is_eof e = false
