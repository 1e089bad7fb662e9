-- ===== src/Websocket/Safe/Header.antt =====
-- server/websocket.go, the header of a frame: reading it keeps the connection, and takes nothing of a
-- payload.
use netman.Common.{
  ℕ, ◌-◌, ◌≡◌, inl, inr, Bool, false, ◌&&◌, Option, none, some, Bytes, [], ◌++◌, length, get_or,
  ltb, leb, ◌/◌, ◌==◌, if◌then◌else◌, choose, Bool-cases, prove_then, prove_else,
}
use netman.Errors.{Error, nothing, fail, Flow, exit, go_on}
use netman.Kernel.{Sys}
use netman.Host.{Host}
use netman.Util.Message.{Message}
use netman.Connect.{BaseConnect}
use netman.Connect.Tls.{Tls, read_data}
use netman.Websocket.{
  WebsocketProtocol, came_short, take_length, finish_masks, take_masks, set_head, has_rsv,
  keep_message_mode, read_length, parse_payload_length, read_masks, parse_masks, then_masks,
  parse_head_bytes, step_masks, step_payload_length,
}
use netman.Websocket.Handshake.{Handshake}
use netman.Websocket.Decode.{take_header, parsed, fill_header, parse_filled, read_header}
use netman.Websocket.Safe.{InFrame, Holds, IsOpen, Safe, SafeHeader}

-- No byte of a payload is there yet.
abbrev Starts :
    {W : Type 0} → (BaseConnect → Type 0) → (W → Type 0) → WebsocketProtocol → W → Type 0
Starts Held Good c w = Held c.base × (c.r_buffer ≡ []) × Good w

module _ {W : Type 0} (Held : BaseConnect → Type 0) (Good : W → Type 0) where
  take_length-Starts :
      (width : ℕ) (c : WebsocketProtocol) (bs : Bytes) (e : Option Error) (w : W)
      → Starts Held Good c w
      → Starts Held Good (take_length width c bs e).1 w
  unfolding take_length
  take_length-Starts width c bs (some e) w h = h
  take_length-Starts width c bs none w h =
      choose (λ (r : Option Error × WebsocketProtocol). Starts Held Good r.1 w) (length bs == width)
        h h

  finish_masks-Starts :
      (c : WebsocketProtocol) (w : W) → Starts Held Good c w → Starts Held Good (finish_masks c) w
  unfolding finish_masks
  finish_masks-Starts c w h = choose (λ c. Starts Held Good c w) (length c.masks == 4) h h

  take_masks-Starts :
      (c : WebsocketProtocol) (bs : Bytes) (e : Option Error) (w : W)
      → Starts Held Good c w
      → Starts Held Good (take_masks c bs e).1 w
  unfolding take_masks
  take_masks-Starts c bs e w h =
      choose (λ (r : Option Error × WebsocketProtocol). Starts Held Good r.1 w) (came_short bs e) h
        (finish_masks-Starts (record c { masks = c.masks ++ bs }) w h)

module _ {W : Type 0} (sys : Sys W) (tls : Tls W) (host : Host W) (Held : BaseConnect → Type 0)
    (Good : W → Type 0) (laws : Holds sys tls host Held Good) where
  abbrev Parsed : Type 0
  Parsed = Option Error × WebsocketProtocol × W

  abbrev ParsedStarts : Parsed → Type 0
  ParsedStarts r = Starts Held Good r.1 r.2

  read_length-Starts :
      (width : ℕ) (c : WebsocketProtocol) (w : W)
      → Starts Held Good c w
      → ParsedStarts (read_length sys tls width c w)
  unfolding read_length
  read_length-Starts width c w (held, empty, good) =
      let (bs, e, base', w') = read_data sys tls c.base width w in
      let h = laws.reads c.base width w held good in
      take_length-Starts Held Good width (record c { base = base' }) bs e w' (h.0, empty, h.1)

  parse_payload_length-Starts :
      (c : WebsocketProtocol) (w : W)
      → Starts Held Good c w
      → ParsedStarts (parse_payload_length sys tls c w)
  unfolding parse_payload_length
  parse_payload_length-Starts c w h = choose ParsedStarts (leb c.fragment_length 125) h (
      choose ParsedStarts (c.fragment_length == 126) (read_length-Starts 2 c w h)
        (choose ParsedStarts (c.fragment_length == 127) (read_length-Starts 8 c w h) h))

  read_masks-Starts :
      (c : WebsocketProtocol) (w : W) → Starts Held Good c w → ParsedStarts (read_masks sys tls c w)
  unfolding read_masks
  read_masks-Starts c w (held, empty, good) =
      let (bs, e, base', w') = read_data sys tls c.base (4 - length c.masks) w in
      let h = laws.reads c.base (4 - length c.masks) w held good in
      take_masks-Starts Held Good (record c { base = base' }) bs e w' (h.0, empty, h.1)

  parse_masks-Starts :
      (second_byte : ℕ) (c : WebsocketProtocol) (w : W)
      → Starts Held Good c w
      → ParsedStarts (parse_masks sys tls second_byte c w)
  unfolding parse_masks
  parse_masks-Starts second_byte c w h =
      choose ParsedStarts (leb 1 (second_byte / 128) && ltb c.parse_header_step step_masks)
        (choose ParsedStarts (ltb (length c.masks) 4) (read_masks-Starts c w h)
          (finish_masks-Starts Held Good c w h))
        h

  then_masks-Starts :
      (second_byte : ℕ) (e : Option Error) (c : WebsocketProtocol) (w : W)
      → Starts Held Good c w
      → ParsedStarts (then_masks sys tls second_byte e c w)
  unfolding then_masks
  then_masks-Starts second_byte (some e) c w h = h
  then_masks-Starts second_byte none c w h = parse_masks-Starts second_byte c w h

  parse_head_bytes-Starts :
      (c : WebsocketProtocol) (first_byte second_byte : ℕ) (w : W)
      → Starts Held Good c w
      → ParsedStarts (parse_head_bytes sys tls c first_byte second_byte w)
  unfolding parse_head_bytes set_head keep_message_mode
  parse_head_bytes-Starts c first_byte second_byte w h =
      let c₁ = keep_message_mode (set_head c first_byte second_byte) in
      let lengths : Parsed =
        if ltb c.parse_header_step step_payload_length
        then parse_payload_length sys tls c₁ w
        else (none, c₁, w) in
      choose ParsedStarts (has_rsv first_byte) h (
        then_masks-Starts second_byte lengths.0 lengths.1 lengths.2 (
          choose ParsedStarts (ltb c.parse_header_step step_payload_length)
            (parse_payload_length-Starts c₁ w h) h))

module _ {W : Type 0} (sys : Sys W) (tls : Tls W) (host : Host W) (utf8_valid : Bytes → Bool)
    (max_slice : ℕ) (hs : Handshake) (Held : BaseConnect → Type 0) (Good : W → Type 0)
    (laws : Holds sys tls host Held Good) where
  abbrev FilledStarts : Flow Message × WebsocketProtocol × W → Type 0
  FilledStarts (exit o, c, w) = Safe Held Good max_slice (o, c, w)
  FilledStarts (go_on, c, w) = Starts Held Good c w

  short_header :
      (e : Option Error) (c : WebsocketProtocol) (w : W)
      → IsOpen Held Good c w
      → FilledStarts
          (elim e as (λ x. Flow Message) [ none ↦ exit nothing | some x ↦ exit (fail x) ], c, w)
  short_header none c w h = h
  short_header (some x) c w h = h

  take_header-Starts :
      (c : WebsocketProtocol) (bs : Bytes) (e : Option Error) (w : W)
      → Starts Held Good c w
      → let (flow, c') = take_header c bs e in FilledStarts (flow, c', w)
  unfolding take_header
  take_header-Starts c bs e w (held, empty, good) =
      choose (λ (r : Flow Message × WebsocketProtocol). FilledStarts (r.0, r.1, w))
        (came_short bs e) (short_header e c w (held, inl empty, good)) (held, empty, good)

  fill_header-Starts :
      (c : WebsocketProtocol) (w : W)
      → Starts Held Good c w
      → FilledStarts (fill_header sys tls host utf8_valid max_slice hs c w)
  unfolding fill_header
  fill_header-Starts c w (held, empty, good) =
      let size = 2 - length c.header_bytes in
      let (bs, e, base', w') = read_data sys tls c.base size w in
      let h = laws.reads c.base size w held good in
      choose (FilledStarts) (ltb (length c.header_bytes) 2)
        (take_header-Starts (record c { base = base' }) bs e w' (h.0, empty, h.1))
        (held, empty, good)

  parsed-SafeHeader :
      (e : Option Error) (c : WebsocketProtocol) (w : W)
      → Starts Held Good c w
      → SafeHeader Held Good max_slice (parsed sys tls host utf8_valid max_slice hs e c, c, w)
  parsed-SafeHeader (some x) c w (held, empty, good) = (held, inl empty, good)
  parsed-SafeHeader none c w (held, empty, good) = elim (Bool-cases c.parse_header) [
    | inl whole ↦
        prove_then (λ (f : Flow Message). SafeHeader Held Good max_slice (f, c, w)) c.parse_header _
          _ whole ((held, inl empty, good), whole)
    | inr more ↦
        prove_else (λ (f : Flow Message). SafeHeader Held Good max_slice (f, c, w)) c.parse_header _
          _ more (held, inl empty, good)
  ]

  parse_filled-SafeHeader :
      (flow : Flow Message) (c : WebsocketProtocol) (w : W)
      → FilledStarts (flow, c, w)
      → SafeHeader Held Good max_slice (parse_filled sys tls host utf8_valid max_slice hs flow c w)
  unfolding parse_filled
  parse_filled-SafeHeader (exit o) c w h = h
  parse_filled-SafeHeader go_on c w (held, empty, good) =
      let first_byte = get_or c.header_bytes 0 0 in
      let second_byte = get_or c.header_bytes 1 0 in
      let (e, c', w') = parse_head_bytes sys tls c first_byte second_byte w in
      choose (SafeHeader Held Good max_slice) (length c.header_bytes == 2)
        (parsed-SafeHeader e c' w' (
          parse_head_bytes-Starts sys tls host Held Good laws c first_byte second_byte w
            (held, empty, good)))
        (held, inl empty, good)

  unparsed : (c : WebsocketProtocol) → InFrame c → c.parse_header ≡ false → c.r_buffer ≡ []
  unparsed c (inl empty) h = empty
  unparsed c (inr (whole, _)) h = cc

  pub read_header-SafeHeader :
      (c : WebsocketProtocol) (w : W)
      → IsOpen Held Good c w
      → SafeHeader Held Good max_slice (read_header sys tls host utf8_valid max_slice hs c w)
  unfolding read_header
  read_header-SafeHeader c w (held, frame, good) =
      let (flow, c', w') = fill_header sys tls host utf8_valid max_slice hs c w in
      elim (Bool-cases c.parse_header) [
        | inl whole ↦
            prove_then (SafeHeader Held Good max_slice) c.parse_header _ _ whole
              ((held, frame, good), whole)
        | inr more ↦ prove_else (SafeHeader Held Good max_slice) c.parse_header _ _ more (
            parse_filled-SafeHeader flow c' w'
              (fill_header-Starts c w (held, unparsed c frame more, good)))
      ]
