-- ===== src/Websocket/Encode.antt =====
-- server/websocket_ctrl.go, encode, against the header's parser in server/websocket.go.
use netman.Common.{
  ℕ, ◌%◌, ◌≡◌, refl, ap, ◌⊎◌, inl, inr, ◌≤◌, ◌<◌, none, Bytes, [], ◌∷◌, ◌++◌, length, arith, leb,
  Bool-cases,
}
use netman.Common.Endian.{IsU64, u16_be, u64_be, from_be-u16_be, from_be-u64_be}
use netman.Websocket.{WebsocketProtocol, set_head, take_length, step_payload_length}
use netman.Websocket.Control.{encode}

-- The extended length's bytes `ext` give the parser the length `n`, as parsePayloadLength has it for
-- the length `f` in the header's second byte; no shorter form holds `n`.
abbrev pub IsLength : WebsocketProtocol → ℕ → ℕ → Bytes → Type 0
IsLength c n f ext =
    ((f ≡ n) × (f ≤ 125) × (ext ≡ []))
    ⊎ (((f ≡ 126)
          × (125 < n)
          × (length ext ≡ 2)
          × (take_length 2 c ext none
              ≡ (none, record c { fragment_length = n; parse_header_step = step_payload_length })))
        ⊎ ((f ≡ 127)
            × (65535 < n)
            × (length ext ≡ 8)
            × (take_length 8 c ext none ≡ (
              none,
              record c { fragment_length = n; parse_header_step = step_payload_length },
            ))))

-- A frame that the server encodes is its first byte, a second byte without the mask bit, the extended
-- length in the shortest form there is, which the server's own parser reads back as the payload's
-- length, and the payload unchanged.
pub encode-take_length :
    (c : WebsocketProtocol) (first_byte : ℕ) (bs : Bytes)
    → IsU64 (length bs)
    → (second_byte : ℕ) × (ext : Bytes) × (encode first_byte bs
        ≡ first_byte ∷ second_byte ∷ (ext ++ bs))
      × (second_byte < 128)
      × IsLength c (length bs) (set_head c first_byte second_byte).fragment_length ext
unfolding encode set_head take_length u16_be u64_be
encode-take_length c first_byte bs h = elim (Bool-cases (leb (length bs) 125)) [
  | inl small ↦ (length bs % 256, [], ground arith, ground arith, inl (ground arith))
  | inr big ↦ elim (Bool-cases (leb (length bs) 65535)) [
    | inl medium ↦ (
      126,
      u16_be (length bs),
      ground arith,
      ground arith,
      inr (
          inl (
            refl,
            ground arith,
            refl,
            ap
                (λ n.
                  (none, record c { fragment_length = n; parse_header_step = step_payload_length }))
                (from_be-u16_be (length bs) (ground arith)),
          )),
    )
    | inr large ↦ (
      127,
      u64_be (length bs),
      ground arith,
      ground arith,
      inr (
          inr (
            refl,
            ground arith,
            refl,
            ap
                (λ n.
                  (none, record c { fragment_length = n; parse_header_step = step_payload_length }))
                (from_be-u64_be (length bs) h),
          )),
    )
  ]
]
