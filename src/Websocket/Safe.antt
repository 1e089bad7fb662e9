-- ===== src/Websocket/Safe.antt =====
-- server/websocket.go: what DecodePacket leaves of a websocket connection, and the rules of the calls
-- below it.
pub mod Header
pub mod Payload
pub mod Control
pub mod Closing
pub mod Shake
pub mod Decode
use netman.Common.{ℕ, ◌≤◌, ◌<◌, ◌≡◌, ◌⊎◌, Bool, true, false, Option, none, some, Bytes, [], length}
use netman.Common.Int.{ℤ}
use netman.Errors.{
  Error, Outcome, nothing, packet, fail, crash, stuck, Flow, exit, go_on, websocket_must_utf8,
}
use netman.Kernel.{Sys, Call}
use netman.Epoll.{Poller}
use netman.Host.{Host}
use netman.Util.Message.{Message}
use netman.Connect.{BaseConnect}
use netman.Connect.Returns.{Returned}
use netman.Connect.Tls.{Tls, read_data, write_data}
use netman.Websocket.{WebsocketProtocol}

-- Between two frames, or inside the payload of one.
abbrev pub InFrame : WebsocketProtocol → Type 0
InFrame c = (c.r_buffer ≡ []) ⊎ ((c.parse_header ≡ true) × (length c.r_buffer < c.fragment_length))

-- A read that keeps the connection held and the world good: it takes no more than the buffer, a byte at
-- least where there is no error and the buffer is not empty, and fails with no error of the protocol.
abbrev pub ReadHolds :
    {W : Type 0}
    → (BaseConnect → Type 0)
    → (W → Type 0)
    → ℕ
    → Bytes × Option Error × BaseConnect × W
    → Type 0
ReadHolds Held Good size (bs, e, b, w) =
    Held b
    × Good w
    × (length bs ≤ size)
    × (0 < size → e ≡ none → 0 < length bs)
    × ((x : Error) → e ≡ some x → x ≡ websocket_must_utf8 → ⊥)

abbrev pub WriteHolds :
    {W A : Type 0} → (BaseConnect → Type 0) → (W → Type 0) → Call A × BaseConnect × W → Type 0
WriteHolds Held Good (r, b, w) = Returned r × Held b × Good w

-- `Held` is what holds of the base of a connection that the calls keep, and `Good` of the world around
-- it; a connection's removal makes a good world of a good one too.
pub record Holds {W : Type 0} (sys : Sys W) (tls : Tls W) (host : Host W)
    (Held : BaseConnect → Type 0) (Good : W → Type 0) : Type 0 where
  pub polled : (b : BaseConnect) → Held b → (p : Poller) × (b.poller ≡ some p)
  pub reads :
      (b : BaseConnect) (size : ℕ) (w : W)
      → Held b
      → Good w
      → ReadHolds Held Good size (read_data sys tls b size w)
  pub writes :
      (b : BaseConnect) (bs : Bytes) (w : W)
      → Held b
      → Good w
      → WriteHolds Held Good (write_data sys tls b bs w)
  pub controls : (p : ℕ) (k : _) (fd : ℕ) (w : W) → Good w → Good (sys.epoll_ctl p k fd w).1
  pub closes : (fd : ℕ) (w : W) → Good w → Good (sys.close fd w).1
  pub removes : (fd : ℕ) (w : W) → Good w → Good (host.manager_remove fd w)
  pub on_close : (id : ℕ) (w : W) → Good w → Good (host.on_close id w)
  pub handler_open : (id : ℕ) (w : W) → Good w → Good (host.handler_open id w)
  pub handler_close : (id : ℕ) (w : W) → Good w → Good (host.handler_close id w)

module _ {W : Type 0} (Held : BaseConnect → Type 0) (Good : W → Type 0) where
  abbrev pub IsOpen : WebsocketProtocol → W → Type 0
  IsOpen c w = Held c.base × InFrame c × Good w

  -- What a call of DecodePacket leaves. It panics only where it makes a slice for a payload that is
  -- longer than the longest slice of the runtime.
  abbrev pub Safe : ℕ → Outcome Message × WebsocketProtocol × W → Type 0
  Safe max_slice (nothing, c, w) = IsOpen c w
  Safe max_slice (packet m, c, w) = IsOpen c w
  Safe max_slice (fail e, c, w) = IsOpen c w
  Safe max_slice (crash, c, w) = (max_slice < c.fragment_length) × Good w
  Safe max_slice (stuck, c, w) = ⊥

  -- The same of the part that reads the header: where it goes on, the header is parsed.
  abbrev pub SafeHeader : ℕ → Flow Message × WebsocketProtocol × W → Type 0
  SafeHeader max_slice (exit o, c, w) = Safe max_slice (o, c, w)
  SafeHeader max_slice (go_on, c, w) = IsOpen c w × (c.parse_header ≡ true)
