-- ===== src/Router/Stream.antt =====
-- server/router.go over a byte stream: what a connection has taken off the stream, and the rules of
-- the reads below it.
pub mod Head
pub mod Body
pub mod Plain
pub mod Rounds
pub mod Sound
pub mod Ends
pub mod Delivery
use netman.Common.{
  ℕ, ◌+◌, ◌-◌, ◌≤◌, ◌<◌, ◌≡◌, ◌≢◌, ◌⊎◌, Bool, true, false, Option, none, some, Bytes, [], ◌++◌,
  length, All, ◌==◌, if◌then◌else◌,
}
use netman.Common.Endian.{IsByte, IsU32, u32_le}
use netman.Errors.{
  Error, eof, head_bytes_length_fail, body_len_exceed_limit, Outcome, nothing, packet, fail, crash,
  stuck, is_eof,
}
use netman.Util.Message.{Message}
use netman.Connect.{BaseConnect}
use netman.Connect.Tls.{Reader}
use netman.Connect.Socket.{SameSocket}
use netman.Router.{RouterProtocol}

-- `incoming fd` is what is still to come on the stream of the descriptor. A read takes a front of its
-- connection's, at most as long as the buffer, and without an error a byte at least; an error that is
-- no end of the stream comes with no bytes; the connection keeps its descriptor.
pub record StreamLaws {W : Type 0} (rd : Reader W) (incoming : ℕ → W → Bytes) : Type 0 where
  pub fits : (c : BaseConnect) (size : ℕ) (w : W) → length (rd c size w).0 ≤ size
  pub takes :
      (c : BaseConnect) (size : ℕ) (w : W)
      → incoming c.fd w ≡ (rd c size w).0 ++ incoming c.fd (rd c size w).3
  pub are_bytes : (c : BaseConnect) (size : ℕ) (w : W) → All IsByte (rd c size w).0
  pub some_bytes :
      (c : BaseConnect) (size : ℕ) (w : W)
      → 0 < size
      → (rd c size w).1 ≡ none
      → 0 < length (rd c size w).0
  pub failed_empty :
      (c : BaseConnect) (size : ℕ) (w : W) (e : Error)
      → (rd c size w).1 ≡ some e
      → is_eof e ≡ false
      → (rd c size w).0 ≡ []
  pub keeps_socket : (c : BaseConnect) (size : ℕ) (w : W) → SameSocket c (rd c size w).2

-- Between packets.
pub record IsIdle (c : RouterProtocol) : Type 0 where
  pub no_packet : c.pack_data_length ≡ 0
  pub no_bytes : c.read_buffer ≡ []

-- Inside the body of a packet whose header is `m`.
pub record IsPartial (c : RouterProtocol) (m : Message) : Type 0 where
  pub at : c.temporary_message ≡ some m
  pub wanted : c.pack_data_length ≡ m.data_len
  pub u32_len : IsU32 m.data_len
  pub u32_id : IsU32 m.msg_id
  pub short : length c.read_buffer < c.pack_data_length

abbrev pub IsValid : RouterProtocol → Type 0
IsValid c = IsIdle c ⊎ ((m : Message) × IsPartial c m)

abbrev pub head_bytes : Message → Bytes
head_bytes m = u32_le m.data_len ++ u32_le m.msg_id

-- A packet on the stream.
abbrev pub frame : Message → Bytes
frame m = head_bytes m ++ m.body

-- What the connection holds of a packet that is begun.
abbrev pub held_of : Option Message → Bytes → Bytes
held_of none bs = bs
held_of (some m) bs = head_bytes m ++ bs

abbrev pub held : RouterProtocol → Bytes
held c = if c.pack_data_length == 0 then [] else held_of c.temporary_message c.read_buffer

-- The errors at which the event loop closes the connection.
abbrev pub closes : Error → Bool
closes eof = true
closes head_bytes_length_fail = true
closes body_len_exceed_limit = true
closes e = false

module _ {W : Type 0} (incoming : W → Bytes) where
  -- The stream from the first byte that is in no packet yet.
  abbrev pub stream : RouterProtocol → W → Bytes
  stream c w = held c ++ incoming w

  -- What DecodePacket may return from `c`. A packet is the next one on the stream; an error that
  -- keeps the connection, and a call that ends inside a packet, lose no byte; all but the errors take
  -- a byte at least off the socket.
  abbrev pub Sound : RouterProtocol → W → Outcome Message × RouterProtocol × W → Type 0
  Sound c w (nothing, c', w') =
      IsValid c' × (stream c' w' ≡ stream c w) × (length (incoming w') < length (incoming w))
  Sound c w (packet m, c', w') =
      IsIdle c'
      × (m.data_len ≡ length m.body)
      × (frame m ++ incoming w' ≡ stream c w)
      × (length (incoming w') < length (incoming w))
  Sound c w (fail e, c', w') = (closes e ≡ true) ⊎ (IsValid c' × (stream c' w' ≡ stream c w))
  Sound c w (crash, c', w') = ⊥
  Sound c w (stuck, c', w') = ⊥
