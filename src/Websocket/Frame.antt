-- ===== src/Websocket/Frame.antt =====
-- server/websocket_frame.go: the payload of a frame, and the message that the frames of it make.
use netman.Common.{
  ℕ, ◌+◌, ◌-◌, ◌%◌, ◌^◌, Bool, true, not, ◌&&◌, ◌||◌, Option, none, some, Bytes, [], ◌∷◌, ◌++◌,
  length, get_or, ltb, leb, ◌==◌, if◌then◌else◌, bit_xor,
}
use netman.Errors.{Error, errno, eagain, websocket_must_utf8, Outcome, nothing, packet, fail, crash}
use netman.Kernel.{Sys}
use netman.Util.Message.{Message}
use netman.Connect.Tls.{Tls, read_data}
use netman.Websocket.{WebsocketProtocol, reset, came_short, continuation, text_mode, bin_mode}

-- `bs[i] ^ masks[i % 4]`, from the index `i` on.
unfoldable pub unmask_from : ℕ → Bytes → Bytes → Bytes
unmask_from i masks [] = []
unmask_from i masks (b ∷ bs) = bit_xor b (get_or masks (i % 4) 0) ∷ unmask_from (i + 1) masks bs

-- The frame's payload, unmasked where the header had a mask, joins the packet.
unfoldable pub decode_fragment : WebsocketProtocol → WebsocketProtocol
decode_fragment c = record c {
  packet_buffer =
      c.packet_buffer
      ++ (if length c.masks == 4 then unmask_from 0 c.masks c.r_buffer else c.r_buffer);
}

-- A last continuation frame brings the earlier frames back.
unfoldable pub join_continued : ℕ → WebsocketProtocol → WebsocketProtocol
join_continued op c =
    if op == continuation && leb 1 (length c.continue_buffer)
    then record c { packet_buffer = c.continue_buffer ++ c.packet_buffer; continue_buffer = [] }
    else c

unfoldable pub frame_message : WebsocketProtocol → Message
frame_message c = record {
  msg_id = c.msg_id;
  data_len = length c.packet_buffer % 2 ^ 32;
  body = c.packet_buffer;
  is_web_socket = true;
  opcode = c.message_mode;
}

-- The state after a message.
unfoldable pub after_message : ℕ → WebsocketProtocol → WebsocketProtocol
after_message op c = record c {
  packet_buffer = [];
  msg_id = (c.msg_id + 1) % 2 ^ 32;
  message_mode =
      if op == continuation || op == text_mode || op == bin_mode then 0 else c.message_mode;
}

module _ (utf8_valid : Bytes → Bool) where
  -- The last frame of a message.
  unfoldable pub end_message : ℕ → WebsocketProtocol → Outcome Message × WebsocketProtocol
  end_message op c =
      if c.message_mode == text_mode && not (utf8_valid c.packet_buffer)
      then (fail websocket_must_utf8, c)
      else (packet (frame_message c), after_message op c)

  -- A whole frame.
  unfoldable pub end_frame : WebsocketProtocol → Outcome Message × WebsocketProtocol
  end_frame c =
      let c₁ = reset (decode_fragment c) in
      if c.final == 1 then end_message c.opcode (join_continued c.opcode c₁) else (
        fail (errno eagain),
        record c₁ { packet_buffer = []; continue_buffer = c₁.continue_buffer ++ c₁.packet_buffer },
      )

  -- nextFrame, once the payload was read.
  unfoldable pub after_payload :
      WebsocketProtocol → Bytes → Option Error → Outcome Message × WebsocketProtocol
  after_payload c bs e =
      if not (c.fragment_length == 0) && came_short bs e
      then (elim e [ none ↦ nothing | some x ↦ fail x ], c)
      else (let c₁ = record c { r_buffer = c.r_buffer ++ bs } in
          if length c₁.r_buffer == c.fragment_length
          then end_frame c₁
          else (fail (errno eagain), c₁))

-- `max_slice` is the longest slice that the Go runtime can make; making a longer one panics.
module _ {W : Type 0} (sys : Sys W) (tls : Tls W) (utf8_valid : Bytes → Bool) (max_slice : ℕ) where
  -- nextFrame. The length is `uint(a - b)`, 64 bits wide.
  unfoldable pub next_frame : WebsocketProtocol → W → Outcome Message × WebsocketProtocol × W
  next_frame c w =
      let r_len = (c.fragment_length + 2 ^ 64 - length c.r_buffer % 2 ^ 64) % 2 ^ 64 in
      if ltb max_slice r_len
      then (crash, c, w)
      else (let (bs, e, base', w') = read_data sys tls c.base r_len w in
          let (o, c') = after_payload utf8_valid (record c { base = base' }) bs e in (o, c', w'))
