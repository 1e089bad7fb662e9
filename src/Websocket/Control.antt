-- ===== src/Websocket/Control.antt =====
-- server/websocket_ctrl.go: frames that the server sends, and the control frames.
use netman.Common.{
  ℕ, ◌%◌, ◌^◌, Bool, ◌&&◌, ◌||◌, Option, none, some, Bytes, [], ◌∷◌, ◌++◌, length, ltb, leb, ◌==◌,
  if◌then◌else◌,
}
use netman.Common.Endian.{u16_be, u64_be}
use netman.Common.Int.{ℤ}
use netman.Errors.{
  Errno, Error, Outcome, nothing, packet, fail, crash, stuck, websocket_ping_payload_oversize,
  websocket_protocol_error,
}
use netman.Kernel.{Sys, Call, returns, panics}
use netman.Epoll
use netman.Epoll.{Poller}
use netman.Host.{Host}
use netman.Util.Message.{Message}
use netman.Connect.{write}
use netman.Connect.Tls.{Tls, write_data}
use netman.Websocket.{WebsocketProtocol, reset}
use netman.Websocket.Frame.{next_frame}

-- encode: one unmasked frame. Its writes to a buffer do not fail.
unfoldable pub encode : ℕ → Bytes → Bytes
unfolding u16_be u64_be
encode first_byte bs =
    let total = length bs in
    first_byte
    ∷ (if leb total 125
        then total % 256 ∷ bs
        else if leb 126 total && leb total 65535
        then 126 ∷ (u16_be (total % 2 ^ 16) ++ bs)
        else 127 ∷ (u64_be (total % 2 ^ 64) ++ bs))

-- The codes that a close frame may not hold.
unfoldable pub is_reserved : ℕ → Bool
is_reserved code = (code == 1004) || (code == 1005) || (code == 1006) || (code == 1015)

unfoldable pub verify_close_code : ℕ → Option Error
unfolding is_reserved
verify_close_code code =
    if ltb code 1000 || leb 5000 code
    then some websocket_protocol_error
    else if leb 1016 code && leb code 2999
    then some websocket_protocol_error
    else if is_reserved code
    then some websocket_protocol_error
    else none

-- The state after a connection is removed. The source sets the buffers to nil.
unfoldable pub forget : WebsocketProtocol → WebsocketProtocol
unfolding reset
forget c = record (reset c) { packet_buffer = []; continue_buffer = []; message_mode = 0 }

module _ {W : Type 0} (sys : Sys W) (tls : Tls W) where
  abbrev pub push : WebsocketProtocol → Bytes → W → Call (ℤ × Option Error) × WebsocketProtocol × W
  push c bs w =
      let (r, base', w') = write_data sys tls c.base bs w in (r, record c { base = base' }, w')

  -- Text and Binary.
  unfoldable pub text :
      WebsocketProtocol → Bytes → W → Call (ℤ × Option Error) × WebsocketProtocol × W
  unfolding encode
  text c bs w = push c (encode 129 bs) w

  unfoldable pub binary :
      WebsocketProtocol → Bytes → W → Call (ℤ × Option Error) × WebsocketProtocol × W
  unfolding encode
  binary c bs w = push c (encode 130 bs) w

  -- ping writes below the TLS layer.
  unfoldable pub ping : WebsocketProtocol → W → WebsocketProtocol × W
  ping c w =
      let (_, base', w') = write sys c.base (137 ∷ 0 ∷ []) w in (record c { base = base' }, w')

module _ {W : Type 0} (sys : Sys W) (tls : Tls W) (host : Host W) where
  -- remove, with the poller that the connection belongs to.
  unfoldable pub remove : Poller → WebsocketProtocol → W → WebsocketProtocol × W
  unfolding forget Epoll.remove
  remove p c w =
      let w₁ = (Epoll.remove sys p c.fd w).1 in
      let w₂ = host.manager_remove c.fd w₁ in
      let w₃ = if c.has_hooks then host.on_close c.id w₂ else w₂ in
      let w₄ = if c.is_handle_shake then host.handler_close c.id w₃ else w₃ in (forget c, w₄)

  -- CloseCode after the close frame was pushed.
  unfoldable pub finish_close :
      Call (ℤ × Option Error)
      → Option Poller
      → WebsocketProtocol
      → W
      → Call (Option Errno) × WebsocketProtocol × W
  unfolding remove
  finish_close panics p c w = (panics, c, w)
  finish_close (returns r) none c w = (panics, c, w)
  finish_close (returns r) (some p) c w =
      let (c', w') = remove p c w in let (e, w'') = sys.close c.fd w' in (returns e, c', w'')

  -- CloseCode: a close frame, then the connection is removed and closed.
  unfoldable pub close_code :
      WebsocketProtocol → ℕ → Bytes → W → Call (Option Errno) × WebsocketProtocol × W
  unfolding finish_close u16_be
  close_code c code reason w =
      let (r, c₁, w₁) = push sys tls c (encode 136 (u16_be code ++ reason)) w in
      finish_close r c₁.poller c₁ w₁

  -- Close.
  unfoldable pub close : WebsocketProtocol → W → Call (Option Errno) × WebsocketProtocol × W
  unfolding close_code
  close c w = close_code c 1000 [] w

-- What pong returns for what push returned.
abbrev pub pong_result : Call (ℤ × Option Error) → Outcome Message
pong_result (returns (n, none)) = nothing
pong_result (returns (n, some e)) = fail e
pong_result panics = crash

module _ {W : Type 0} (sys : Sys W) (tls : Tls W) (utf8_valid : Bytes → Bool) (max_slice : ℕ) where
  -- pong, from the ping's frame on: it answers with the ping's payload.
  unfoldable pub answer_ping :
      Outcome Message → WebsocketProtocol → W → Outcome Message × WebsocketProtocol × W
  unfolding encode
  answer_ping (packet m) c w =
      let (r, c', w') = push sys tls c (encode 138 m.body) w in (pong_result r, c', w')
  answer_ping nothing c w = (nothing, c, w)
  answer_ping (fail e) c w = (fail e, c, w)
  answer_ping crash c w = (crash, c, w)
  answer_ping stuck c w = (stuck, c, w)

  -- pong.
  unfoldable pub pong : WebsocketProtocol → W → Outcome Message × WebsocketProtocol × W
  unfolding answer_ping
  pong c w =
      if ltb 125 c.fragment_length
      then (fail websocket_ping_payload_oversize, c, w)
      else (let (o, c', w') = next_frame sys tls utf8_valid max_slice c w in answer_ping o c' w')
