-- ===== src/Websocket/Safe/Shake.antt =====
-- server/websocket.go, handleShake: it ends with an error or goes on, and keeps the connection.
use netman.Common.{ℕ, Bool, Option, none, some, Bytes, length, ◌==◌, choose}
use netman.Common.Int.{ℤ}
use netman.Errors.{Error, Outcome, Flow, exit, go_on}
use netman.Kernel.{Sys, Call, returns, panics}
use netman.Host.{Host}
use netman.Util.Message.{Message}
use netman.Connect.{BaseConnect}
use netman.Connect.Tls.{Tls, read_data}
use netman.Websocket.{WebsocketProtocol}
use netman.Websocket.Handshake.{
  Handshake, response, padded, keep_query, shaken, respond, match_request, after_request,
  handle_shake,
}
use netman.Websocket.Control.{push}
use netman.Websocket.Safe.{Holds, IsOpen, Safe}
use netman.Websocket.Safe.Control.{ClosedOpen, push-ClosedOpen}

module _ {W : Type 0} (sys : Sys W) (tls : Tls W) (host : Host W) (utf8_valid : Bytes → Bool)
    (max_slice : ℕ) (hs : Handshake) (Held : BaseConnect → Type 0) (Good : W → Type 0)
    (laws : Holds sys tls host Held Good) where
  abbrev SafeHere : Outcome Message × WebsocketProtocol × W → Type 0
  SafeHere r = Safe Held Good max_slice r

  -- The handshake ends with an error, or goes on.
  abbrev pub SafeShake : Flow Message × WebsocketProtocol × W → Type 0
  SafeShake (exit o, c, w) = SafeHere (o, c, w)
  SafeShake (go_on, c, w) = IsOpen Held Good c w

  shaken-SafeShake :
      (r : Call (ℤ × Option Error)) (c : WebsocketProtocol) (w : W)
      → ClosedOpen sys tls host Held Good laws (r, c, w)
      → SafeShake (shaken r, c, w)
  shaken-SafeShake (returns (n, none)) c w h = h.1
  shaken-SafeShake (returns (n, some e)) c w h = h.1
  shaken-SafeShake panics c w h = elim h.0 [ ]

  keep_query-IsOpen :
      (c : WebsocketProtocol) (q : Option Bytes) (w : W)
      → IsOpen Held Good c w
      → IsOpen Held Good (keep_query c q) w
  keep_query-IsOpen c none w h = h
  keep_query-IsOpen c (some q) w h = h

  respond-SafeShake :
      (c : WebsocketProtocol) (target : Bytes) (key : Option Bytes) (w : W)
      → IsOpen Held Good c w
      → SafeShake (respond sys tls hs c target key w)
  unfolding respond
  respond-SafeShake c target none w h = h
  respond-SafeShake c target (some key) w h =
      let c₁ = keep_query c (hs.query_of target) in
      let (r, c₂, w₂) = push sys tls c₁ (response hs key) w in
      shaken-SafeShake r c₂ w₂ (
        push-ClosedOpen sys tls host Held Good laws c₁ (response hs key) w
          (keep_query-IsOpen c (hs.query_of target) w h))

  match_request-SafeShake :
      (c : WebsocketProtocol) (request : Bytes) (target : Option Bytes) (w : W)
      → IsOpen Held Good c w
      → SafeShake (match_request sys tls hs c request target w)
  unfolding match_request
  match_request-SafeShake c request none w h = h
  match_request-SafeShake c request (some target) w h =
      choose SafeShake (hs.has_upgrade request) (respond-SafeShake c target (hs.key request) w h) h

  after_request-SafeShake :
      (c : WebsocketProtocol) (bs : Bytes) (e : Option Error) (w : W)
      → IsOpen Held Good c w
      → SafeShake (after_request sys tls hs c bs e w)
  unfolding after_request
  after_request-SafeShake c bs (some e) w h = h
  after_request-SafeShake c bs none w h =
      choose SafeShake (length bs == 0) h
        (match_request-SafeShake c (padded bs) (hs.target (padded bs)) w h)

  pub handle_shake-SafeShake :
      (c : WebsocketProtocol) (w : W)
      → IsOpen Held Good c w
      → SafeShake (handle_shake sys tls hs c w)
  unfolding handle_shake
  handle_shake-SafeShake c w (held, v, good) =
      let (bs, e, base', w') = read_data sys tls c.base 2048 w in
      let h = laws.reads c.base 2048 w held good in
      after_request-SafeShake (record c { base = base' }) bs e w' (h.0, v, h.1)
