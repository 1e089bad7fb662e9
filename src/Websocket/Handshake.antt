-- ===== src/Websocket/Handshake.antt =====
-- server/websocket.go, handleShake: the request that opens a websocket connection.
use netman.Common.{
  ◌-◌, Bool, Option, none, some, Bytes, [], ◌∷◌, ◌++◌, length, replicate, ◌==◌, if◌then◌else◌,
}
use netman.Common.Int.{ℤ}
use netman.Errors.{Error, eof, crash, fail, Flow, exit, go_on}
use netman.Kernel.{Sys, Call, returns, panics}
use netman.Util.Message.{Message}
use netman.Connect.Tls.{Tls, read_data}
use netman.Websocket.{WebsocketProtocol}
use netman.Websocket.Control.{push}

-- What the handshake takes from Go's library: on the text of the request the regular expressions,
-- strings.Index and url.ParseQuery; strings.Trim of a key's line ends, SHA-1 and base 64.
pub record Handshake : Type 0 where
  pub target : Bytes → Option Bytes
  pub has_upgrade : Bytes → Bool
  pub key : Bytes → Option Bytes
  pub query_of : Bytes → Option Bytes
  pub trim_lines : Bytes → Bytes
  pub sha1 : Bytes → Bytes
  pub base64 : Bytes → Bytes

-- "258EAFA5-E914-47DA-95CA-C5AB0DC85B11".
abbrev pub guid : Bytes
guid =
    50 ∷ 53 ∷ 56 ∷ 69 ∷ 65 ∷ 70 ∷ 65 ∷ 53 ∷ 45 ∷ 69 ∷ 57 ∷ 49 ∷ 52 ∷ 45 ∷ 52 ∷ 55 ∷ 68 ∷ 65 ∷ 45
    ∷ 57 ∷ 53 ∷ 67 ∷ 65 ∷ 45 ∷ 67 ∷ 53 ∷ 65 ∷ 66 ∷ 48 ∷ 68 ∷ 67 ∷ 56 ∷ 53 ∷ 66 ∷ 49 ∷ 49 ∷ []

-- The response's headers up to the accepted key, and from there on.
abbrev pub before_key : Bytes
before_key =
    72 ∷ 84 ∷ 84 ∷ 80 ∷ 47 ∷ 49 ∷ 46 ∷ 49 ∷ 32 ∷ 49 ∷ 48 ∷ 49 ∷ 32 ∷ 83 ∷ 119 ∷ 105 ∷ 116 ∷ 99 ∷ 104
    ∷ 105 ∷ 110 ∷ 103 ∷ 32 ∷ 80 ∷ 114 ∷ 111 ∷ 116 ∷ 111 ∷ 99 ∷ 111 ∷ 108 ∷ 115 ∷ 13 ∷ 10 ∷ 85 ∷ 112
    ∷ 103 ∷ 114 ∷ 97 ∷ 100 ∷ 101 ∷ 58 ∷ 32 ∷ 119 ∷ 101 ∷ 98 ∷ 115 ∷ 111 ∷ 99 ∷ 107 ∷ 101 ∷ 116 ∷ 13
    ∷ 10 ∷ 67 ∷ 111 ∷ 110 ∷ 110 ∷ 101 ∷ 99 ∷ 116 ∷ 105 ∷ 111 ∷ 110 ∷ 58 ∷ 32 ∷ 85 ∷ 112 ∷ 103 ∷ 114
    ∷ 97 ∷ 100 ∷ 101 ∷ 13 ∷ 10 ∷ 83 ∷ 101 ∷ 99 ∷ 45 ∷ 87 ∷ 101 ∷ 98 ∷ 83 ∷ 111 ∷ 99 ∷ 107 ∷ 101
    ∷ 116 ∷ 45 ∷ 65 ∷ 99 ∷ 99 ∷ 101 ∷ 112 ∷ 116 ∷ 58 ∷ 32 ∷ []

abbrev pub after_key : Bytes
after_key =
    13 ∷ 10 ∷ 83 ∷ 101 ∷ 99 ∷ 45 ∷ 87 ∷ 101 ∷ 98 ∷ 83 ∷ 111 ∷ 99 ∷ 107 ∷ 101 ∷ 116 ∷ 45 ∷ 86 ∷ 101
    ∷ 114 ∷ 115 ∷ 105 ∷ 111 ∷ 110 ∷ 58 ∷ 32 ∷ 49 ∷ 51 ∷ 13 ∷ 10 ∷ 13 ∷ 10 ∷ []

unfoldable pub response : Handshake → Bytes → Bytes
response hs key = before_key ++ hs.base64 (hs.sha1 (hs.trim_lines key ++ guid)) ++ after_key

-- The handshake's buffer of 2048 bytes after `bs` was read into it.
unfoldable pub padded : Bytes → Bytes
padded bs = bs ++ replicate (2048 - length bs) 0

-- `c.query, _ = url.ParseQuery(split[1])`, where the target has one question mark.
abbrev pub keep_query : WebsocketProtocol → Option Bytes → WebsocketProtocol
keep_query c none = c
keep_query c (some q) = record c { query = q }

-- What handleShake returns for what push returned.
abbrev pub shaken : Call (ℤ × Option Error) → Flow Message
shaken (returns (n, none)) = go_on
shaken (returns (n, some e)) = exit (fail e)
shaken panics = exit crash

module _ {W : Type 0} (sys : Sys W) (tls : Tls W) (hs : Handshake) where
  -- handleShake, once the request has been matched: the response goes out.
  unfoldable pub respond :
      WebsocketProtocol → Bytes → Option Bytes → W → Flow Message × WebsocketProtocol × W
  unfolding response
  respond c target none w = (exit (fail eof), c, w)
  respond c target (some key) w =
      let c₁ = keep_query c (hs.query_of target) in
      let (r, c₂, w₂) = push sys tls c₁ (response hs key) w in (shaken r, c₂, w₂)

  -- handleShake, from the request's text on.
  unfoldable pub match_request :
      WebsocketProtocol → Bytes → Option Bytes → W → Flow Message × WebsocketProtocol × W
  unfolding respond
  match_request c request none w = (exit (fail eof), c, w)
  match_request c request (some target) w =
      if hs.has_upgrade request
      then respond c target (hs.key request) w
      else (exit (fail eof), c, w)

  unfoldable pub after_request :
      WebsocketProtocol → Bytes → Option Error → W → Flow Message × WebsocketProtocol × W
  unfolding match_request padded
  after_request c bs (some e) w = (exit (fail e), c, w)
  after_request c bs none w =
      if length bs == 0
      then (exit (fail eof), c, w)
      else match_request c (padded bs) (hs.target (padded bs)) w

  -- handleShake.
  unfoldable pub handle_shake : WebsocketProtocol → W → Flow Message × WebsocketProtocol × W
  unfolding after_request
  handle_shake c w =
      let (bs, e, base', w') = read_data sys tls c.base 2048 w in
      after_request (record c { base = base' }) bs e w'
