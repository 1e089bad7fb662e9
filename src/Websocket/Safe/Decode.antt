-- ===== src/Websocket/Safe/Decode.antt =====
-- server/websocket.go, DecodePacket: whatever a peer sends, the connection stays between two frames or
-- inside one, and the call panics only for a slice that the runtime cannot make.
use netman.Common.{ℕ, ◌≡◌, Bool, true, not, ◌||◌, Bytes, length, ltb, leb, ◌==◌, choose}
use netman.Errors.{Outcome, Flow, exit, go_on}
use netman.Kernel.{Sys}
use netman.Host.{Host}
use netman.Util.Message.{Message}
use netman.Connect.{BaseConnect}
use netman.Connect.Tls.{Tls}
use netman.Websocket.{
  WebsocketProtocol, continuation, text_mode, bin_mode, op_close, op_ping, op_pong,
}
use netman.Websocket.Handshake.{Handshake, handle_shake}
use netman.Websocket.Decode.{read_header, dispatch, after_header, after_shake, decode_packet}
use netman.Websocket.Safe.{Holds, IsOpen, Safe, SafeHeader}
use netman.Websocket.Safe.Header.{read_header-SafeHeader}
use netman.Websocket.Safe.Payload.{next_frame-Safe}
use netman.Websocket.Safe.Control.{pong-Safe}
use netman.Websocket.Safe.Closing.{on_close_frame-Safe, on_pong-Safe}
use netman.Websocket.Safe.Shake.{SafeShake, handle_shake-SafeShake}

module _ {W : Type 0} (sys : Sys W) (tls : Tls W) (host : Host W) (utf8_valid : Bytes → Bool)
    (max_slice : ℕ) (hs : Handshake) (Held : BaseConnect → Type 0) (Good : W → Type 0)
    (laws : Holds sys tls host Held Good) where
  abbrev SafeHere : Outcome Message × WebsocketProtocol × W → Type 0
  SafeHere r = Safe Held Good max_slice r

  dispatch-Safe :
      (c : WebsocketProtocol) (w : W)
      → IsOpen Held Good c w
      → c.parse_header ≡ true
      → SafeHere (dispatch sys tls host utf8_valid max_slice hs c w)
  unfolding dispatch
  dispatch-Safe c w h whole =
      let framed = next_frame-Safe sys tls host utf8_valid max_slice Held Good laws c w h whole in
      choose SafeHere (c.opcode == continuation)
        (choose SafeHere (ltb c.message_mode text_mode) h framed)
        (choose SafeHere (c.opcode == text_mode || c.opcode == bin_mode)
          (choose SafeHere (leb 1 (length c.continue_buffer)) h framed)
          (choose SafeHere (c.opcode == op_close)
            (on_close_frame-Safe sys tls host utf8_valid max_slice hs Held Good laws c w h whole)
            (choose SafeHere (c.opcode == op_ping)
              (choose SafeHere (not (c.final == 1)) h
                (pong-Safe sys tls host Held Good laws utf8_valid max_slice c w h whole))
              (choose SafeHere (c.opcode == op_pong)
                (on_pong-Safe sys tls host utf8_valid max_slice hs Held Good laws c w h whole) h))))

  after_header-Safe :
      (flow : Flow Message) (c : WebsocketProtocol) (w : W)
      → SafeHeader Held Good max_slice (flow, c, w)
      → SafeHere (after_header sys tls host utf8_valid max_slice hs flow c w)
  unfolding after_header
  after_header-Safe (exit o) c w h = h
  after_header-Safe go_on c w h = dispatch-Safe c w h.0 h.1

  after_shake-Safe :
      (flow : Flow Message) (c : WebsocketProtocol) (w : W)
      → SafeShake sys tls host utf8_valid max_slice hs Held Good laws (flow, c, w)
      → SafeHere (after_shake sys tls host utf8_valid max_slice hs flow c w)
  unfolding after_shake
  after_shake-Safe (exit o) c w h = h
  after_shake-Safe go_on c w (held, v, good) = (held, v, laws.handler_open c.id w good)

  -- DecodePacket of a websocket connection between two frames or inside one, whatever it reads, before
  -- and after the handshake and for every kind of frame: it leaves the connection such, with its base
  -- held and the world around it good, and it panics only where the payload that it makes a slice for
  -- is longer than the runtime's longest slice.
  pub decode_packet-Safe :
      (c : WebsocketProtocol) (w : W)
      → IsOpen Held Good c w
      → SafeHere (decode_packet sys tls host utf8_valid max_slice hs c w)
  unfolding decode_packet
  decode_packet-Safe c w h =
      let (flow, c', w') = read_header sys tls host utf8_valid max_slice hs c w in
      let (shake, c₁, w₁) = handle_shake sys tls hs c w in
      choose SafeHere c.is_handle_shake
        (after_header-Safe flow c' w'
          (read_header-SafeHeader sys tls host utf8_valid max_slice hs Held Good laws c w h))
        (after_shake-Safe shake c₁ w₁
          (handle_shake-SafeShake sys tls host utf8_valid max_slice hs Held Good laws c w h))
