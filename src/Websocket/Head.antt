-- ===== src/Websocket/Head.antt =====
-- server/websocket.go, parseHeadBytes: the headers of masked frames, whole or in two parts.
use netman.Common.{
  ℕ, ◌+◌, ◌-◌, ◌*◌, ◌/◌, ◌%◌, ◌≡◌, ◌<◌, ◌≤◌, ◌⊎◌, inl, inr, refl, ap, sym, subst, ◌∙◌, true, false,
  ◌&&◌, ◌||◌, if◌then◌else◌, Option, none, some, Bytes, [], ◌∷◌, ◌++◌, length, ltb, leb, ◌==◌,
  arith, if_then, if_else,
}
use netman.Common.Endian.{IsU16, IsU64, u16_be, u64_be, from_be, from_be-u16_be, from_be-u64_be}
use netman.Errors.{Error}
use netman.Kernel.{Sys}
use netman.Connect.{BaseConnect}
use netman.Connect.Tls.{Tls, read_data}
use netman.Websocket.{
  WebsocketProtocol, step_payload_length, step_masks, came_short, take_length, finish_masks,
  take_masks, set_head, has_rsv, keep_message_mode, read_length, parse_payload_length, read_masks,
  parse_masks, then_masks, parse_head_bytes,
}

-- The mask bit with the length `n`: in seven bits, or in two or eight bytes after them.
abbrev pub Declares : ℕ → Bytes → ℕ → Type 0
Declares second_byte ext n =
    ((second_byte ≡ 128 + n) × (n ≤ 125) × (ext ≡ []))
    ⊎ (((second_byte ≡ 254) × (ext ≡ u16_be n) × IsU16 n)
        ⊎ ((second_byte ≡ 255) × (ext ≡ u64_be n) × IsU64 n))

-- A connection with a parsed header of these fields.
abbrev pub client_header : WebsocketProtocol → BaseConnect → ℕ → ℕ → ℕ → Bytes → WebsocketProtocol
client_header c base final opcode n mask = record c {
  base = base;
  final = final;
  opcode = opcode;
  fragment_length = n;
  masks = mask;
  message_mode = if opcode == 1 || opcode == 2 then opcode else c.message_mode;
  parse_header = true;
  parse_header_step = 2;
  header_bytes = [];
}

module _ {W : Type 0} (sys : Sys W) (tls : Tls W) where
  -- The header is parsed.
  abbrev pub with_masks : BaseConnect → Bytes → WebsocketProtocol → WebsocketProtocol
  with_masks base m c = record c {
    base = base;
    masks = m;
    parse_header = true;
    parse_header_step = step_masks;
    header_bytes = [];
  }

  -- The fields that the header's first bytes set.
  abbrev pub started : WebsocketProtocol → ℕ → ℕ → WebsocketProtocol
  started c first_byte second_byte = keep_message_mode (set_head c first_byte second_byte)

  abbrev pub with_length : BaseConnect → ℕ → WebsocketProtocol → WebsocketProtocol
  with_length base n c = record c {
    base = base;
    fragment_length = n;
    parse_header_step = step_payload_length;
  }

  -- What a read of a header's bytes returns, where they are all there; nothing is read for none.
  abbrev pub Arrives : BaseConnect → Bytes → BaseConnect → W → W → Type 0
  Arrives base [] base' w w' = (base' ≡ base) × (w' ≡ w)
  Arrives base (b ∷ bs) base' w w' =
      read_data sys tls base (length (b ∷ bs)) w ≡ (b ∷ bs, none, base', w')

  masked : (second_byte n : ℕ) (ext : Bytes) → Declares second_byte ext n → 128 ≤ second_byte
  masked second_byte n ext (inl (at, short, none_more)) = omega arith
  masked second_byte n ext (inr (inl (at, spelt, fits))) = omega arith
  masked second_byte n ext (inr (inr (at, spelt, fits))) = omega arith

  masks_taken :
      (c : WebsocketProtocol) (m : Bytes) (base : BaseConnect)
      → c.masks ≡ []
      → length m ≡ 4
      → take_masks (record c { base = base }) m none ≡ (none, with_masks base m c)
  unfolding take_masks finish_masks
  masks_taken c m base none_yet four =
      if_else (came_short m none) _ _ (ground arith)
      ∙ ap (λ x. (none, finish_masks (record c { base = base; masks = x ++ m }))) none_yet
      ∙ ap (λ x. (none, x)) (if_then (length m == 4) _ _ (ground arith))

  -- What is done with the bytes of a read.
  abbrev then_take :
      (WebsocketProtocol → Bytes → Option Error → Option Error × WebsocketProtocol)
      → WebsocketProtocol
      → Bytes × Option Error × BaseConnect × W
      → Option Error × WebsocketProtocol × W
  then_take take c r =
      let (bs, e, base, w) = r in let (e', c') = take (record c { base = base }) bs e in (e', c', w)

  masks_read :
      (c : WebsocketProtocol) (second_byte : ℕ) (m : Bytes) (base : BaseConnect) (w w' : W)
      → 128 ≤ second_byte
      → c.parse_header_step < 2
      → c.masks ≡ []
      → length m ≡ 4
      → read_data sys tls c.base 4 w ≡ (m, none, base, w')
      → parse_masks sys tls second_byte c w ≡ (none, with_masks base m c, w')
  unfolding parse_masks read_masks
  masks_read c second_byte m base w w' masked step none_yet four e =
      if_then (leb 1 (second_byte / 128) && ltb c.parse_header_step step_masks) _ _ (ground arith)
      ∙ if_then (ltb (length c.masks) 4) _ _ (ground (arith, ap length none_yet))
      ∙ ap (λ bs. then_take take_masks c (read_data sys tls c.base (4 - length bs) w)) none_yet
      ∙ ap (then_take take_masks c) e
      ∙ ap (λ (r : Option Error × WebsocketProtocol). (r.0, r.1, w'))
          (masks_taken c m base none_yet four)

  length_read :
      (width : ℕ) (c : WebsocketProtocol) (ext : Bytes) (base : BaseConnect) (w w' : W)
      → length ext ≡ width
      → read_data sys tls c.base width w ≡ (ext, none, base, w')
      → read_length sys tls width c w ≡ (none, with_length base (from_be 0 ext) c, w')
  unfolding read_length take_length
  length_read width c ext base w w' le e =
      ap (then_take (take_length width) c) e
      ∙ ap (λ (r : Option Error × WebsocketProtocol). (r.0, r.1, w'))
          (if_then (length ext == width) _ _ (ground arith))

  -- A header is new, and has no reserved bit.
  abbrev pub IsFresh : WebsocketProtocol → ℕ → Type 0
  IsFresh c first_byte = (c.parse_header_step ≡ 0) × (c.masks ≡ []) × (has_rsv first_byte ≡ false)

  abbrev pub parse_rest :
      ℕ → Option Error × WebsocketProtocol × W → Option Error × WebsocketProtocol × W
  parse_rest second_byte r = then_masks sys tls second_byte r.0 r.1 r.2

  -- The part before the mask.
  length_first :
      (c : WebsocketProtocol) (first_byte : ℕ) (ext : Bytes) (base : BaseConnect) (w w' : W)
      → IsFresh c first_byte
      → length ext ≡ 2
      → read_data sys tls c.base 2 w ≡ (ext, none, base, w')
      → parse_head_bytes sys tls c first_byte 254 w
        ≡ parse_masks sys tls 254 (with_length base (from_be 0 ext) (started c first_byte 254)) w'
  unfolding parse_head_bytes parse_payload_length then_masks keep_message_mode set_head
  length_first c first_byte ext base w w' fresh le e =
      if_else (has_rsv first_byte) _ _ fresh.2
      ∙ ap (parse_rest 254) (
          if_then (ltb c.parse_header_step step_payload_length) _ _ (ground (arith, fresh.0))
          ∙ length_read 2 (started c first_byte 254) ext base w w' le e)

  payload_read :
      (c : WebsocketProtocol) (second_byte n : ℕ) (ext : Bytes) (base : BaseConnect) (w w' : W)
      → Declares second_byte ext n
      → c.fragment_length ≡ second_byte % 128
      → Arrives c.base ext base w w'
      → parse_payload_length sys tls c w ≡ (none, with_length base n c, w')
  unfolding parse_payload_length u16_be u64_be
  payload_read c second_byte n [] base w w' (inl (at, short, none_more)) head (eb, ew) =
      if_then (leb c.fragment_length 125) _ _ (ground arith)
      ∙ ap (λ k. (none, with_length c.base k c, w)) (omega arith)
      ∙ ap (λ b. (none, with_length b n c, w)) (sym eb)
      ∙ ap (λ v. (none, with_length base n c, v)) (sym ew)
  payload_read c second_byte n (x ∷ xs) base w w' (inl (at, short, none_more)) head e = cc
  payload_read c second_byte n [] base w w' (inr (inl (at, spelt, fits))) head e = cc
  payload_read c second_byte n (x ∷ xs) base w w' (inr (inl (at, spelt, fits))) head e =
      let two : length (x ∷ xs) ≡ 2 = ap length spelt in
      if_else (leb c.fragment_length 125) _ _ (ground arith)
      ∙ if_then (c.fragment_length == 126) _ _ (ground arith)
      ∙ length_read 2 c (x ∷ xs) base w w' two
          (subst (λ k. read_data sys tls c.base k w ≡ (x ∷ xs, none, base, w')) two e)
      ∙ ap (λ k. (none, with_length base k c, w')) (ap (from_be 0) spelt ∙ from_be-u16_be n fits)
  payload_read c second_byte n [] base w w' (inr (inr (at, spelt, fits))) head e = cc
  payload_read c second_byte n (x ∷ xs) base w w' (inr (inr (at, spelt, fits))) head e =
      let eight : length (x ∷ xs) ≡ 8 = ap length spelt in
      if_else (leb c.fragment_length 125) _ _ (ground arith)
      ∙ if_else (c.fragment_length == 126) _ _ (ground arith)
      ∙ if_then (c.fragment_length == 127) _ _ (ground arith)
      ∙ length_read 8 c (x ∷ xs) base w w' eight
          (subst (λ k. read_data sys tls c.base k w ≡ (x ∷ xs, none, base, w')) eight e)
      ∙ ap (λ k. (none, with_length base k c, w')) (ap (from_be 0) spelt ∙ from_be-u64_be n fits)

  -- A client's header: the final bit and the opcode in the first byte, the mask bit and a length in one
  -- of its three forms after it, and the mask. Where all of it can be read, with nothing of a header
  -- read before, parseHeadBytes gives back the final bit, the opcode, the length and the mask, keeps
  -- the opcode of a text or binary frame as the message's, and changes nothing else but to mark the
  -- header as parsed.
  pub parse_head_bytes_client :
      (c : WebsocketProtocol) (final opcode second_byte n : ℕ) (ext m : Bytes)
      (base base' : BaseConnect) (w w' w'' : W)
      → c.parse_header_step ≡ 0
      → c.masks ≡ []
      → final < 2
      → opcode < 16
      → Declares second_byte ext n
      → length m ≡ 4
      → Arrives c.base ext base w w'
      → read_data sys tls base 4 w' ≡ (m, none, base', w'')
      → parse_head_bytes sys tls c (final * 128 + opcode) second_byte w
        ≡ (none, client_header c base' final opcode n m, w'')
  unfolding parse_head_bytes then_masks keep_message_mode set_head has_rsv
  parse_head_bytes_client c final opcode second_byte n ext m base base' w w' w'' step none_yet bit
        four_bits spelt four e e' =
      let first_byte = final * 128 + opcode in
      if_else (has_rsv first_byte) _ _ (ground arith)
      ∙ ap (parse_rest second_byte) (
          if_then (ltb c.parse_header_step step_payload_length) _ _ (ground arith)
          ∙ payload_read (started c first_byte second_byte) second_byte n ext base w w' spelt refl
              e)
      ∙ masks_read (with_length base n (started c first_byte second_byte)) second_byte m base' w'
          w'' (masked second_byte n ext spelt) (omega arith) none_yet four e'
      ∙ ap (λ x. (none, client_header c base' x (first_byte % 16) n m, w'')) (omega arith)
      ∙ ap (λ x. (none, client_header c base' final x n m, w'')) (omega arith)

  masks_missing :
      (c : WebsocketProtocol) (second_byte : ℕ) (base : BaseConnect) (e : Error) (w w' : W)
      → 128 ≤ second_byte
      → c.parse_header_step < 2
      → c.masks ≡ []
      → read_data sys tls c.base 4 w ≡ ([], some e, base, w')
      → parse_masks sys tls second_byte c w ≡ (some e, record c { base = base }, w')
  unfolding parse_masks read_masks take_masks
  masks_missing c second_byte base e w w' masked step none_yet r =
      if_then (leb 1 (second_byte / 128) && ltb c.parse_header_step step_masks) _ _ (ground arith)
      ∙ if_then (ltb (length c.masks) 4) _ _ (ground (arith, ap length none_yet))
      ∙ ap (λ bs. then_take take_masks c (read_data sys tls c.base (4 - length bs) w)) none_yet
      ∙ ap (then_take take_masks c) r

  -- A masked frame with a length of two bytes and no reserved bit, with nothing of its header read
  -- before, whose length can be read but whose mask cannot be read yet: parseHeadBytes returns the
  -- read's error, and when it is called again and reads the mask, it returns no error with the header
  -- parsed, but the frame's length is then 126 whatever the two bytes said.
  pub parse_head_bytes_late :
      (c : WebsocketProtocol) (first_byte : ℕ) (ext m : Bytes) (e : Error)
      (base base' base'' : BaseConnect) (w w' w'' v v' : W)
      → IsFresh c first_byte
      → length ext ≡ 2
      → length m ≡ 4
      → read_data sys tls c.base 2 w ≡ (ext, none, base, w')
      → read_data sys tls base 4 w' ≡ ([], some e, base', w'')
      → read_data sys tls base' 4 v ≡ (m, none, base'', v')
      → (c' : WebsocketProtocol) × (c'' : WebsocketProtocol) × (parse_head_bytes sys tls c
            first_byte 254 w
          ≡ (some e, c', w''))
        × (parse_head_bytes sys tls c' first_byte 254 v ≡ (none, c'', v'))
        × (c''.parse_header ≡ true)
        × (c''.fragment_length ≡ 126)
  unfolding parse_head_bytes keep_message_mode set_head then_masks
  parse_head_bytes_late c first_byte ext m e base base' base'' w w' w'' v v' fresh two four r r'
        r'' =
      let c₁ = with_length base (from_be 0 ext) (started c first_byte 254) in
      let c' = record c₁ { base = base' } in
      let c₂ = started c' first_byte 254 in
      (
        c',
        with_masks base'' m c₂,
        length_first c first_byte ext base w w' fresh two r
            ∙ masks_missing c₁ 254 base' e w' w'' (omega arith) (omega arith) fresh.1 r',
        if_else (has_rsv first_byte) _ _ fresh.2
            ∙ masks_read c₂ 254 m base'' v v' (omega arith) (omega arith) fresh.1 four r'',
        refl,
        refl,
      )
