-- ===== src/Websocket/Safe/Control.antt =====
-- server/websocket_ctrl.go: sending frames and closing keep what holds of a connection and of the world
-- around it.
use netman.Common.{
  ℕ, ◌≡◌, refl, inl, Bool, true, Option, none, some, Bytes, [], ltb, ◌++◌, if◌then◌else◌, choose,
}
use netman.Common.Endian.{u16_be}
use netman.Common.Int.{ℤ}
use netman.Errors.{Error, Outcome, nothing, packet, fail, crash, stuck}
use netman.Kernel.{Sys, Call, returns, panics}
use netman.Epoll
use netman.Epoll.{Poller}
use netman.Host.{Host}
use netman.Util.Message.{Message}
use netman.Connect.{BaseConnect}
use netman.Connect.Tls.{Tls}
use netman.Websocket.{WebsocketProtocol, reset}
use netman.Websocket.Frame.{next_frame}
use netman.Websocket.Control.{
  encode, forget, push, remove, finish_close, close_code, close, pong_result, answer_ping, pong,
}
use netman.Connect.Returns.{Returned}
use netman.Websocket.Safe.{Holds, IsOpen, Safe}
use netman.Websocket.Safe.Payload.{next_frame-Safe}

module _ {W : Type 0} (sys : Sys W) (tls : Tls W) (host : Host W) (Held : BaseConnect → Type 0)
    (Good : W → Type 0) (laws : Holds sys tls host Held Good) where
  abbrev pub ClosedOpen : {A : Type 0} → Call A × WebsocketProtocol × W → Type 0
  ClosedOpen (r, c, w) = Returned r × IsOpen Held Good c w

  pub push-ClosedOpen :
      (c : WebsocketProtocol) (bs : Bytes) (w : W)
      → IsOpen Held Good c w
      → ClosedOpen (push sys tls c bs w)
  push-ClosedOpen c bs w (held, v, good) =
      let h = laws.writes c.base bs w held good in (h.0, (h.1, v, h.2))

  remove-IsOpen :
      (p : Poller) (c : WebsocketProtocol) (w : W)
      → Held c.base
      → Good w
      → let (c', w') = remove sys tls host p c w in IsOpen Held Good c' w'
  unfolding remove forget reset Epoll.remove
  remove-IsOpen p c w held good =
      let w₁ = (Epoll.remove sys p c.fd w).1 in
      let w₂ = host.manager_remove c.fd w₁ in
      let w₃ = if c.has_hooks then host.on_close c.id w₂ else w₂ in
      let good₂ = laws.removes c.fd w₁ (laws.controls p.epfd _ c.fd w good) in
      let good₃ : Good w₃ = choose Good c.has_hooks (laws.on_close c.id w₂ good₂) good₂ in
      (held, inl refl, choose Good c.is_handle_shake (laws.handler_close c.id w₃ good₃) good₃)

  finish_close-ClosedOpen :
      (r : Call (ℤ × Option Error)) (o : Option Poller) (c : WebsocketProtocol) (w : W)
      → (p : Poller) × (o ≡ some p)
      → ClosedOpen (r, c, w)
      → ClosedOpen (finish_close sys tls host r o c w)
  unfolding finish_close
  finish_close-ClosedOpen panics o c w at h = elim h.0 [ ]
  finish_close-ClosedOpen (returns r) none c w at h = cc
  finish_close-ClosedOpen (returns r) (some p) c w at (back, (held, v, good)) =
      let (held', v', good') = remove-IsOpen p c w held good in
      (tt, (held', v', laws.closes c.fd _ good'))

  -- CloseCode returns.
  pub close_code-ClosedOpen :
      (c : WebsocketProtocol) (code : ℕ) (reason : Bytes) (w : W)
      → IsOpen Held Good c w
      → ClosedOpen (close_code sys tls host c code reason w)
  unfolding close_code
  close_code-ClosedOpen c code reason w h =
      let bs = encode 136 (u16_be code ++ reason) in
      let (r, c₁, w₁) = push sys tls c bs w in
      let pushed = push-ClosedOpen c bs w h in
      finish_close-ClosedOpen r c₁.poller c₁ w₁ (laws.polled c₁.base pushed.1.0) pushed

  pub close-ClosedOpen :
      (c : WebsocketProtocol) (w : W) → IsOpen Held Good c w → ClosedOpen (close sys tls host c w)
  unfolding close
  close-ClosedOpen c w h = close_code-ClosedOpen c 1000 [] w h

  module _ (utf8_valid : Bytes → Bool) (max_slice : ℕ) where
    pong_result-Safe :
        (r : Call (ℤ × Option Error)) (c : WebsocketProtocol) (w : W)
        → ClosedOpen (r, c, w)
        → Safe Held Good max_slice (pong_result r, c, w)
    pong_result-Safe (returns (n, none)) c w h = h.1
    pong_result-Safe (returns (n, some e)) c w h = h.1
    pong_result-Safe panics c w h = elim h.0 [ ]

    answer_ping-Safe :
        (o : Outcome Message) (c : WebsocketProtocol) (w : W)
        → Safe Held Good max_slice (o, c, w)
        → Safe Held Good max_slice (answer_ping sys tls utf8_valid max_slice o c w)
    unfolding answer_ping
    answer_ping-Safe (packet m) c w h =
        let (r, c', w') = push sys tls c (encode 138 m.body) w in
        pong_result-Safe r c' w' (push-ClosedOpen c (encode 138 m.body) w h)
    answer_ping-Safe nothing c w h = h
    answer_ping-Safe (fail e) c w h = h
    answer_ping-Safe crash c w h = h
    answer_ping-Safe stuck c w h = h

    pub pong-Safe :
        (c : WebsocketProtocol) (w : W)
        → IsOpen Held Good c w
        → c.parse_header ≡ true
        → Safe Held Good max_slice (pong sys tls utf8_valid max_slice c w)
    unfolding pong
    pong-Safe c w h whole =
        let (o, c', w') = next_frame sys tls utf8_valid max_slice c w in
        choose (Safe Held Good max_slice) (ltb 125 c.fragment_length) h (
          answer_ping-Safe o c' w'
            (next_frame-Safe sys tls host utf8_valid max_slice Held Good laws c w h whole))
