-- ===== src/Websocket/Payload.antt =====
-- server/websocket_frame.go: payloads that come in pieces, masked, and messages of many frames.
use netman.Common.{
  ℕ, suc, ◌+◌, ◌%◌, ◌≡◌, ◌<◌, refl, sym, ap, ap₂, ◌∙◌, ◌⊎◌, inl, Bool, not, append_assoc, ◌&&◌,
  none, Bytes, [], ◌∷◌, ◌++◌, length, length-append, get_or, ◌==◌, if◌then◌else◌, arith, if_else,
}
use netman.Common.Xor.{bit_xor_undo}
use netman.Errors.{errno, eagain, Outcome, fail}
use netman.Util.Message.{Message}
use netman.Websocket.{WebsocketProtocol, came_short}
use netman.Websocket.Frame.{unmask_from, end_frame, after_payload}

-- Masking twice with the same mask, from the same index on, changes nothing.
pub unmask_twice : (i : ℕ) (masks bs : Bytes) → unmask_from i masks (unmask_from i masks bs) ≡ bs
unfolding unmask_from
unmask_twice i masks [] = refl
unmask_twice i masks (b ∷ bs) =
    ap₂ ◌∷◌ (bit_xor_undo b (get_or masks (i % 4) 0)) (unmask_twice (i + 1) masks bs)

pub length-unmask : (i : ℕ) (masks bs : Bytes) → length (unmask_from i masks bs) ≡ length bs
unfolding unmask_from
length-unmask i masks [] = refl
length-unmask i masks (b ∷ bs) = ap suc (length-unmask (i + 1) masks bs)

module _ (utf8_valid : Bytes → Bool) where
  -- What happens to bytes that were read.
  abbrev pub taken : WebsocketProtocol → Bytes → Outcome Message × WebsocketProtocol
  taken c bs =
      if length (c.r_buffer ++ bs) == c.fragment_length
      then end_frame utf8_valid (record c { r_buffer = c.r_buffer ++ bs })
      else (fail (errno eagain), record c { r_buffer = c.r_buffer ++ bs })

  pub after_payload-taken :
      (c : WebsocketProtocol) (bs : Bytes)
      → (0 < length bs) ⊎ (c.fragment_length ≡ 0)
      → after_payload utf8_valid c bs none ≡ taken c bs
  unfolding after_payload
  after_payload-taken c bs h =
      if_else (not (c.fragment_length == 0) && came_short bs none) _ _ (ground (arith, h))

  -- A piece of a payload that is not empty and does not end it is kept, with the result that more is
  -- needed, and a next piece that is not empty is then taken as if both had come at once.
  pub after_payload_split :
      (c : WebsocketProtocol) (x y : Bytes)
      → 0 < length x
      → 0 < length y
      → length c.r_buffer + length x < c.fragment_length
      → (c' : WebsocketProtocol) × (after_payload utf8_valid c x none ≡ (fail (errno eagain), c'))
        × (after_payload utf8_valid c' y none ≡ after_payload utf8_valid c (x ++ y) none)
  after_payload_split c x y hx hy short =
      let c' = record c { r_buffer = c.r_buffer ++ x } in
      (
        c',
        after_payload-taken c x (inl hx)
            ∙ if_else (length (c.r_buffer ++ x) == c.fragment_length) _ _
                (ground (arith, length-append c.r_buffer x)),
        after_payload-taken c' y (inl hy)
            ∙ ap
                (λ bs.
                  if length bs == c.fragment_length
                  then end_frame utf8_valid (record c { r_buffer = bs })
                  else (fail (errno eagain), record c { r_buffer = bs }))
                (append_assoc c.r_buffer x y)
            ∙ sym (after_payload-taken c (x ++ y) (inl (ground (arith, length-append x y)))),
      )
