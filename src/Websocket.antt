-- ===== src/Websocket.antt =====
-- server/websocket.go: the state of a websocket connection and the header of a frame.
pub mod Frame
pub mod Control
pub mod Handshake
pub mod Decode
pub mod CloseCode
pub mod Encode
pub mod Payload
pub mod Fragments
pub mod Messages
pub mod Head
pub mod Safe
use netman.Common.{
  ℕ, suc, ◌+◌, ◌-◌, ◌/◌, ◌%◌, Bool, true, false, ◌&&◌, ◌||◌, Option, none, some, Bytes, [], ◌∷◌,
  ◌++◌, length, ltb, leb, ◌==◌, if◌then◌else◌,
}
use netman.Common.Endian.{from_be}
use netman.Errors.{Error, websocket_rsv_fail}
use netman.Kernel.{Sys}
use netman.Connect.{BaseConnect}
use netman.Connect.Tls.{Tls, read_data}

abbrev pub continuation : ℕ
continuation = 0

abbrev pub text_mode : ℕ
text_mode = 1

abbrev pub bin_mode : ℕ
bin_mode = 2

abbrev pub op_close : ℕ
op_close = 8

abbrev pub op_ping : ℕ
op_ping = 9

abbrev pub op_pong : ℕ
op_pong = 10

abbrev pub step_payload_length : ℕ
step_payload_length = 1

abbrev pub step_masks : ℕ
step_masks = 2

-- `query` holds the raw query of the handshake.
pub record WebsocketProtocol : Type 0 where
  pub base : BaseConnect
  pub open base use *
  pub is_handle_shake : Bool
  pub final : ℕ
  pub fragment_length : ℕ
  pub packet_buffer : Bytes
  pub r_buffer : Bytes
  pub continue_buffer : Bytes
  pub parse_header : Bool
  pub opcode : ℕ
  pub masks : Bytes
  pub msg_id : ℕ
  pub query : Bytes
  pub message_mode : ℕ
  pub parse_header_step : ℕ
  pub header_bytes : Bytes

unfoldable pub new_websocket_protocol : BaseConnect → WebsocketProtocol
new_websocket_protocol base = record {
  base = base;
  is_handle_shake = false;
  final = 0;
  fragment_length = 0;
  packet_buffer = [];
  r_buffer = [];
  continue_buffer = [];
  parse_header = false;
  opcode = 0;
  masks = [];
  msg_id = 0;
  query = [];
  message_mode = 0;
  parse_header_step = 0;
  header_bytes = [];
}

unfoldable pub reset : WebsocketProtocol → WebsocketProtocol
reset c = record c {
  fragment_length = 0;
  r_buffer = [];
  parse_header = false;
  opcode = 0;
  masks = [];
  parse_header_step = 0;
  header_bytes = [];
}

abbrev pub is_some {ℓ} : {A : Type ℓ} → Option A → Bool
is_some none = false
is_some (some a) = true

-- `n <= 0 || err != nil`.
abbrev pub came_short : Bytes → Option Error → Bool
came_short bs e = length bs == 0 || is_some e

-- An extended length, once it is read: `n != width || err != nil` returns the error, which may be nil.
unfoldable pub take_length :
    ℕ → WebsocketProtocol → Bytes → Option Error → Option Error × WebsocketProtocol
take_length width c bs (some e) = (some e, c)
take_length width c bs none =
    if length bs == width
    then (
      none,
      record c { fragment_length = from_be 0 bs; parse_header_step = step_payload_length },
    )
    else (none, c)

-- The mask is whole: the header is parsed.
unfoldable pub finish_masks : WebsocketProtocol → WebsocketProtocol
finish_masks c =
    if length c.masks == 4
    then record c { parse_header = true; parse_header_step = step_masks; header_bytes = [] }
    else c

unfoldable pub take_masks :
    WebsocketProtocol → Bytes → Option Error → Option Error × WebsocketProtocol
unfolding finish_masks
take_masks c bs e =
    if came_short bs e then (e, c) else (none, finish_masks (record c { masks = c.masks ++ bs }))

-- The fields of the header's two bytes: `b >> 7`, `b & 0xf` and `b & 127` are written by `/` and `%`.
unfoldable pub set_head : WebsocketProtocol → ℕ → ℕ → WebsocketProtocol
set_head c first_byte second_byte = record c {
  final = first_byte / 128;
  fragment_length = second_byte % 128;
  opcode = first_byte % 16;
}

-- `rsv1 == 1 || rsv2 == 1 || rsv3 == 1`.
unfoldable pub has_rsv : ℕ → Bool
has_rsv b = (b / 16 % 2 == 1) || (b / 32 % 2 == 1) || (b / 64 % 2 == 1)

unfoldable pub keep_message_mode : WebsocketProtocol → WebsocketProtocol
keep_message_mode c = record c {
  message_mode = if c.opcode == text_mode || c.opcode == bin_mode then c.opcode else c.message_mode;
}

module _ {W : Type 0} (sys : Sys W) (tls : Tls W) where
  -- readData into an extended length of `width` bytes.
  unfoldable pub read_length : ℕ → WebsocketProtocol → W → Option Error × WebsocketProtocol × W
  read_length width c w =
      let (bs, e, base', w') = read_data sys tls c.base width w in
      let (e', c') = take_length width (record c { base = base' }) bs e in (e', c', w')

  -- parsePayloadLength.
  unfoldable pub parse_payload_length : WebsocketProtocol → W → Option Error × WebsocketProtocol × W
  parse_payload_length c w =
      if leb c.fragment_length 125
      then (none, record c { parse_header_step = step_payload_length }, w)
      else if c.fragment_length == 126
      then read_length 2 c w
      else if c.fragment_length == 127
      then read_length 8 c w
      else (none, c, w)

  unfoldable pub read_masks : WebsocketProtocol → W → Option Error × WebsocketProtocol × W
  read_masks c w =
      let (bs, e, base', w') = read_data sys tls c.base (4 - length c.masks) w in
      let (e', c') = take_masks (record c { base = base' }) bs e in (e', c', w')

  -- parseHeadBytes, the mask.
  unfoldable pub parse_masks : ℕ → WebsocketProtocol → W → Option Error × WebsocketProtocol × W
  parse_masks second_byte c w =
      if leb 1 (second_byte / 128) && ltb c.parse_header_step step_masks
      then (if ltb (length c.masks) 4 then read_masks c w else (none, finish_masks c, w))
      else (none, c, w)

  unfoldable pub then_masks :
      ℕ → Option Error → WebsocketProtocol → W → Option Error × WebsocketProtocol × W
  then_masks second_byte (some e) c w = (some e, c, w)
  then_masks second_byte none c w = parse_masks second_byte c w

  -- parseHeadBytes.
  unfoldable pub parse_head_bytes :
      WebsocketProtocol → ℕ → ℕ → W → Option Error × WebsocketProtocol × W
  parse_head_bytes c first_byte second_byte w =
      if has_rsv first_byte
      then (some websocket_rsv_fail, set_head c first_byte second_byte, w)
      else (let c₁ = keep_message_mode (set_head c first_byte second_byte) in
          let (e, c₂, w₂) =
            if ltb c.parse_header_step step_payload_length
            then parse_payload_length c₁ w
            else (none, c₁, w) in
          then_masks second_byte e c₂ w₂)
