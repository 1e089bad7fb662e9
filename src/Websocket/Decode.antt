-- ===== src/Websocket/Decode.antt =====
-- server/websocket.go, DecodePacket.
use netman.Common.{
  ℕ, ◌-◌, ◌%◌, ◌^◌, Bool, true, not, ◌&&◌, ◌||◌, Option, none, some, Bytes, ◌++◌, length, get_or,
  drop, take, ltb, leb, ◌==◌, if◌then◌else◌,
}
use netman.Common.Endian.{from_be}
use netman.Errors.{
  Error, errno, eagain, Outcome, nothing, packet, fail, crash, stuck, Flow, exit, go_on,
  websocket_opcode_fail, websocket_ping_payload_oversize, websocket_protocol_error,
  websocket_must_utf8, websocket_ctrl_message_must_not_fragmented,
}
use netman.Kernel.{Sys, Call, returns, panics}
use netman.Host.{Host}
use netman.Util.Message.{Message}
use netman.Connect.Tls.{Tls, read_data}
use netman.Websocket.{
  WebsocketProtocol, came_short, parse_head_bytes, continuation, text_mode, bin_mode, op_close,
  op_ping, op_pong,
}
use netman.Websocket.Frame.{next_frame}
use netman.Websocket.Handshake.{Handshake, handle_shake}
use netman.Websocket.Control.{close, pong, verify_close_code}

-- The header's two bytes: what they are, after a read.
unfoldable pub take_header :
    WebsocketProtocol → Bytes → Option Error → Flow Message × WebsocketProtocol
take_header c bs e =
    if came_short bs e
    then (elim e [ none ↦ exit nothing | some x ↦ exit (fail x) ], c)
    else (go_on, record c { header_bytes = c.header_bytes ++ bs })

module _ (utf8_valid : Bytes → Bool) where
  -- A close frame's payload: the text behind the code, and the code.
  unfoldable pub check_reason : ℕ → Bytes → Option Error
  unfolding verify_close_code
  check_reason len body =
      if ltb 2 len && not (utf8_valid (drop 2 body))
      then some websocket_must_utf8
      else verify_close_code (from_be 0 (take 2 body))

  -- `reason.Bytes()[:2]` panics on a shorter payload. `go_on` closes the connection.
  unfoldable pub judge_reason : ℕ → Bytes → Flow Message
  unfolding check_reason
  judge_reason len body =
      if ltb (length body) 2
      then exit crash
      else (elim (check_reason len body) [ none ↦ go_on | some e ↦ exit (fail e) ])

  -- A close frame, from nextFrame's result on. Without a message the reason is made of the packet's
  -- buffer and of the frame's length, which nextFrame may have reset.
  unfoldable pub after_close_frame : Outcome Message → WebsocketProtocol → Flow Message
  unfolding judge_reason
  after_close_frame (packet m) c = judge_reason m.data_len m.body
  after_close_frame nothing c = judge_reason (c.fragment_length % 2 ^ 32) c.packet_buffer
  after_close_frame (fail websocket_must_utf8) c =
      judge_reason (c.fragment_length % 2 ^ 32) c.packet_buffer
  after_close_frame (fail e) c = exit (fail e)
  after_close_frame crash c = exit crash
  after_close_frame stuck c = exit stuck

abbrev pub called : {A : Type 0} → Call A → Outcome Message
called (returns a) = nothing
called panics = crash

-- What DecodePacket returns for a frame of which only the error counts.
abbrev pub error_only : Outcome Message → Outcome Message
error_only (packet m) = nothing
error_only o = o

module _ {W : Type 0} (sys : Sys W) (tls : Tls W) (host : Host W) (utf8_valid : Bytes → Bool)
    (max_slice : ℕ) (hs : Handshake) where
  -- The header's two bytes are read where they are not there yet.
  unfoldable pub fill_header : WebsocketProtocol → W → Flow Message × WebsocketProtocol × W
  unfolding take_header
  fill_header c w =
      if ltb (length c.header_bytes) 2
      then (let (bs, e, base', w') = read_data sys tls c.base (2 - length c.header_bytes) w in
          let (flow, c') = take_header (record c { base = base' }) bs e in (flow, c', w'))
      else (go_on, c, w)

  abbrev pub parsed : Option Error → WebsocketProtocol → Flow Message
  parsed (some e) c = exit (fail e)
  parsed none c = if c.parse_header then go_on else exit (fail (errno eagain))

  unfoldable pub parse_filled :
      Flow Message → WebsocketProtocol → W → Flow Message × WebsocketProtocol × W
  parse_filled (exit o) c w = (exit o, c, w)
  parse_filled go_on c w =
      if length c.header_bytes == 2
      then (let (e, c', w') =
            parse_head_bytes sys tls c (get_or c.header_bytes 0 0) (get_or c.header_bytes 1 0) w in
          (parsed e c', c', w'))
      else (exit (fail (errno eagain)), c, w)

  -- DecodePacket, the header: `go_on` once it is parsed.
  unfoldable pub read_header : WebsocketProtocol → W → Flow Message × WebsocketProtocol × W
  unfolding fill_header parse_filled
  read_header c w =
      if c.parse_header
      then (go_on, c, w)
      else (let (flow, c', w') = fill_header c w in parse_filled flow c' w')

  -- `_ = c.Close(); return nil, nil`.
  unfoldable pub close_and_return :
      Flow Message → WebsocketProtocol → W → Outcome Message × WebsocketProtocol × W
  close_and_return (exit o) c w = (o, c, w)
  close_and_return go_on c w = let (r, c', w') = close sys tls host c w in (called r, c', w')

  -- DecodePacket, a close frame.
  unfoldable pub on_close_frame : WebsocketProtocol → W → Outcome Message × WebsocketProtocol × W
  unfolding after_close_frame close_and_return
  on_close_frame c w =
      if not (c.fragment_length == 0 || leb 2 c.fragment_length) || ltb 125 c.fragment_length
      then (fail websocket_protocol_error, c, w)
      else if leb 2 c.fragment_length
      then (let (o, c', w') = next_frame sys tls utf8_valid max_slice c w in
          close_and_return (after_close_frame utf8_valid o c') c' w')
      else close_and_return go_on c w

  -- DecodePacket, a pong.
  unfoldable pub on_pong : WebsocketProtocol → W → Outcome Message × WebsocketProtocol × W
  unfolding close_and_return
  on_pong c w =
      if not (c.final == 1)
      then (fail websocket_ctrl_message_must_not_fragmented, c, w)
      else if c.fragment_length == 0
      then close_and_return go_on c w
      else (let (o, c', w') = next_frame sys tls utf8_valid max_slice c w in (error_only o, c', w'))

  -- DecodePacket, the switch on the opcode.
  unfoldable pub dispatch : WebsocketProtocol → W → Outcome Message × WebsocketProtocol × W
  unfolding on_close_frame on_pong
  dispatch c w =
      if c.opcode == continuation
      then if ltb c.message_mode text_mode
        then (fail websocket_opcode_fail, c, w)
        else next_frame sys tls utf8_valid max_slice c w
      else if c.opcode == text_mode || c.opcode == bin_mode
      then if leb 1 (length c.continue_buffer)
        then (fail websocket_ping_payload_oversize, c, w)
        else next_frame sys tls utf8_valid max_slice c w
      else if c.opcode == op_close
      then on_close_frame c w
      else if c.opcode == op_ping
      then if not (c.final == 1)
        then (fail websocket_ctrl_message_must_not_fragmented, c, w)
        else pong sys tls utf8_valid max_slice c w
      else if c.opcode == op_pong
      then on_pong c w
      else (fail websocket_opcode_fail, c, w)

  unfoldable pub after_header :
      Flow Message → WebsocketProtocol → W → Outcome Message × WebsocketProtocol × W
  after_header (exit o) c w = (o, c, w)
  after_header go_on c w = dispatch c w

  unfoldable pub after_shake :
      Flow Message → WebsocketProtocol → W → Outcome Message × WebsocketProtocol × W
  after_shake (exit o) c w = (o, c, w)
  after_shake go_on c w = (nothing, record c { is_handle_shake = true }, host.handler_open c.id w)

  -- DecodePacket.
  unfoldable pub decode_packet : WebsocketProtocol → W → Outcome Message × WebsocketProtocol × W
  unfolding after_header after_shake
  decode_packet c w =
      if c.is_handle_shake
      then (let (flow, c', w') = read_header c w in after_header flow c' w')
      else (let (flow, c', w') = handle_shake sys tls hs c w in after_shake flow c' w')
