-- ===== src/Websocket/Safe/Closing.antt =====
-- server/websocket.go, DecodePacket: a close frame, a pong, and the close that follows them.
use netman.Common.{
  ℕ, ◌%◌, ◌^◌, ◌≤◌, ◌≡◌, refl, inl, inr, Bool, true, not, ◌||◌, Option, none, some, Bytes, length,
  ltb, leb, ◌==◌, arith, choose, Bool-cases, prove_then, prove_else,
}
use netman.Errors.{
  Errno, Error, errno, eof, unexpected_eof, tls_error, head_bytes_length_fail, router_not_found,
  body_len_exceed_limit, tls_handshake_un_finish, websocket_opcode_fail, websocket_rsv_fail,
  websocket_ping_payload_oversize, websocket_ctrl_message_must_not_fragmented, websocket_must_utf8,
  websocket_protocol_error, udp_acceptor_from, udp_not_packet, udp_not_complete, unpack_message,
  udp_socket_setup, Outcome, nothing, packet, fail, crash, stuck, Flow, exit, go_on,
}
use netman.Kernel.{Sys, Call, returns, panics}
use netman.Host.{Host}
use netman.Util.Message.{Message}
use netman.Connect.{BaseConnect}
use netman.Connect.Tls.{Tls}
use netman.Websocket.{WebsocketProtocol}
use netman.Websocket.Frame.{next_frame}
use netman.Websocket.Handshake.{Handshake}
use netman.Websocket.Control.{close}
use netman.Websocket.Decode.{
  check_reason, judge_reason, after_close_frame, called, error_only, close_and_return,
  on_close_frame, on_pong,
}
use netman.Connect.Returns.{Returned}
use netman.Websocket.Safe.{Holds, IsOpen, Safe}
use netman.Websocket.Safe.Payload.{HasCode, next_frame-Safe, next_frame-HasCode}
use netman.Websocket.Safe.Control.{close-ClosedOpen}

-- A close frame's code and text were read: the connection is closed, or there is an error.
abbrev Judged : Flow Message → Type 0
Judged go_on = Unit {0}
Judged (exit (fail e)) = Unit {0}
Judged (exit nothing) = ⊥
Judged (exit (packet m)) = ⊥
Judged (exit crash) = ⊥
Judged (exit stuck) = ⊥

module _ (utf8_valid : Bytes → Bool) where
  checked-Judged :
      (e : Option Error)
      → Judged (elim e as (λ x. Flow Message) [ none ↦ go_on | some x ↦ exit (fail x) ])
  checked-Judged none = tt
  checked-Judged (some x) = tt

  judge_reason-Judged :
      (len : ℕ) (body : Bytes) → 2 ≤ length body → Judged (judge_reason utf8_valid len body)
  unfolding judge_reason
  judge_reason-Judged len body two =
      prove_else Judged (ltb (length body) 2) _ _ (ground arith)
        (checked-Judged (check_reason utf8_valid len body))

  failed_frame-Judged :
      (e : Error) (c : WebsocketProtocol)
      → (e ≡ websocket_must_utf8 → 2 ≤ length c.packet_buffer)
      → Judged (after_close_frame utf8_valid (fail e) c)
  unfolding after_close_frame
  failed_frame-Judged websocket_must_utf8 c h =
      judge_reason-Judged (c.fragment_length % 2 ^ 32) c.packet_buffer (h refl)
  failed_frame-Judged eof c h = tt
  failed_frame-Judged unexpected_eof c h = tt
  failed_frame-Judged (errno x) c h = tt
  failed_frame-Judged tls_error c h = tt
  failed_frame-Judged head_bytes_length_fail c h = tt
  failed_frame-Judged router_not_found c h = tt
  failed_frame-Judged body_len_exceed_limit c h = tt
  failed_frame-Judged tls_handshake_un_finish c h = tt
  failed_frame-Judged websocket_opcode_fail c h = tt
  failed_frame-Judged websocket_rsv_fail c h = tt
  failed_frame-Judged websocket_ping_payload_oversize c h = tt
  failed_frame-Judged websocket_ctrl_message_must_not_fragmented c h = tt
  failed_frame-Judged websocket_protocol_error c h = tt
  failed_frame-Judged udp_acceptor_from c h = tt
  failed_frame-Judged udp_not_packet c h = tt
  failed_frame-Judged udp_not_complete c h = tt
  failed_frame-Judged (unpack_message e) c h = tt
  failed_frame-Judged (udp_socket_setup e) c h = tt

module _ {W : Type 0} (sys : Sys W) (tls : Tls W) (host : Host W) (utf8_valid : Bytes → Bool)
    (max_slice : ℕ) (hs : Handshake) (Held : BaseConnect → Type 0) (Good : W → Type 0)
    (laws : Holds sys tls host Held Good) where
  abbrev SafeHere : Outcome Message × WebsocketProtocol × W → Type 0
  SafeHere r = Safe Held Good max_slice r

  called-Safe :
      (r : Call (Option Errno)) (c : WebsocketProtocol) (w : W)
      → Returned r × IsOpen Held Good c w
      → SafeHere (called r, c, w)
  called-Safe (returns e) c w h = h.1
  called-Safe panics c w h = elim h.0 [ ]

  pub closed-Safe :
      (flow : Flow Message) (c : WebsocketProtocol) (w : W)
      → Judged flow
      → IsOpen Held Good c w
      → SafeHere (close_and_return sys tls host utf8_valid max_slice hs flow c w)
  unfolding close_and_return
  closed-Safe go_on c w j h =
      let (r, c', w') = close sys tls host c w in
      called-Safe r c' w' (close-ClosedOpen sys tls host Held Good laws c w h)
  closed-Safe (exit (fail e)) c w j h = h
  closed-Safe (exit nothing) c w j h = elim j [ ]
  closed-Safe (exit (packet m)) c w j h = elim j [ ]
  closed-Safe (exit crash) c w j h = elim j [ ]
  closed-Safe (exit stuck) c w j h = j

  close_frame-Safe :
      (o : Outcome Message) (c : WebsocketProtocol) (w : W)
      → SafeHere (o, c, w)
      → HasCode o c
      → SafeHere (
          close_and_return sys tls host utf8_valid max_slice hs
            (after_close_frame utf8_valid o c)
            c
            w)
  unfolding after_close_frame close_and_return
  close_frame-Safe nothing c w h coded = elim coded [ ]
  close_frame-Safe (packet m) c w h coded =
      closed-Safe _ c w (judge_reason-Judged utf8_valid m.data_len m.body coded) h
  close_frame-Safe (fail e) c w h coded =
      closed-Safe (after_close_frame utf8_valid (fail e) c) c w
        (failed_frame-Judged utf8_valid e c coded) h
  close_frame-Safe crash c w h coded = h
  close_frame-Safe stuck c w h coded = h

  pub on_close_frame-Safe :
      (c : WebsocketProtocol) (w : W)
      → IsOpen Held Good c w
      → c.parse_header ≡ true
      → SafeHere (on_close_frame sys tls host utf8_valid max_slice hs c w)
  unfolding on_close_frame
  on_close_frame-Safe c w h whole =
      let (o, c', w') = next_frame sys tls utf8_valid max_slice c w in
      let wrong =
        not (c.fragment_length == 0 || leb 2 c.fragment_length) || ltb 125 c.fragment_length in
      elim (Bool-cases wrong) [
        | inl refused ↦ prove_then SafeHere wrong _ _ refused h
        | inr allowed ↦
            prove_else SafeHere wrong _ _ allowed (elim (Bool-cases (leb 2 c.fragment_length)) [
              | inl two ↦ prove_then SafeHere (leb 2 c.fragment_length) _ _ two (
                  close_frame-Safe o c' w'
                    (next_frame-Safe sys tls host utf8_valid max_slice Held Good laws c w h whole)
                    (next_frame-HasCode sys tls host utf8_valid max_slice Held Good laws c w h
                      (ground arith) (ground arith)))
              | inr none_there ↦
                  prove_else SafeHere (leb 2 c.fragment_length) _ _ none_there
                    (closed-Safe go_on c w tt h)
            ])
      ]

  error_only-Safe :
      (o : Outcome Message) (c : WebsocketProtocol) (w : W)
      → SafeHere (o, c, w)
      → SafeHere (error_only o, c, w)
  error_only-Safe (packet m) c w h = h
  error_only-Safe nothing c w h = h
  error_only-Safe (fail e) c w h = h
  error_only-Safe crash c w h = h
  error_only-Safe stuck c w h = h

  pub on_pong-Safe :
      (c : WebsocketProtocol) (w : W)
      → IsOpen Held Good c w
      → c.parse_header ≡ true
      → SafeHere (on_pong sys tls host utf8_valid max_slice hs c w)
  unfolding on_pong
  on_pong-Safe c w h whole =
      let (o, c', w') = next_frame sys tls utf8_valid max_slice c w in
      choose SafeHere (not (c.final == 1)) h (
        choose SafeHere (c.fragment_length == 0) (closed-Safe go_on c w tt h) (
          error_only-Safe o c' w'
            (next_frame-Safe sys tls host utf8_valid max_slice Held Good laws c w h whole)))
