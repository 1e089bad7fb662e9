-- ===== src/Websocket/Messages.antt =====
-- server/websocket_frame.go: a message that comes in several frames.
use netman.Common.{
  ℕ, ◌+◌, ◌%◌, ◌^◌, ◌≡◌, ◌≤◌, refl, ap, ◌∙◌, ◌⊎◌, inl, inr, Bool, true, append_assoc, ◌||◌, List,
  Bytes, [], ◌∷◌, ◌++◌, length, replicate, ◌==◌, if◌then◌else◌, arith,
}
use netman.Errors.{errno, eagain, packet, fail}
use netman.Util.Message.{Message}
use netman.Websocket.{WebsocketProtocol, reset, continuation, text_mode, bin_mode}
use netman.Websocket.Frame.{frame_message, after_message, end_message}
use netman.Websocket.Fragments.{ClientFrame, take_frames, between, take_part, take_last}

module _ (utf8_valid : Bytes → Bool) where
  abbrev pub payloads : ClientFrame → List ClientFrame → Bytes
  payloads f [] = f.payload
  payloads f (g ∷ gs) = f.payload ++ payloads g gs

  abbrev pub AreMasked : ClientFrame → List ClientFrame → Type 0
  AreMasked f [] = length f.mask ≡ 4
  AreMasked f (g ∷ gs) = (length f.mask ≡ 4) × AreMasked g gs

  -- The message, and the state behind it.
  abbrev pub whole : WebsocketProtocol → ℕ → Bytes → Message
  whole c mode body = record {
    msg_id = c.msg_id;
    data_len = length body % 2 ^ 32;
    body = body;
    is_web_socket = true;
    opcode = mode;
  }

  abbrev pub finished : WebsocketProtocol → WebsocketProtocol
  finished c = record (between utf8_valid c 1 0 []) { msg_id = (c.msg_id + 1) % 2 ^ 32 }

  end_whole :
      (op mode : ℕ) (body : Bytes) (c : WebsocketProtocol)
      → op ≤ 2
      → (mode ≡ text_mode → utf8_valid body ≡ true)
      → end_message utf8_valid op (record (between utf8_valid c 1 mode []) { packet_buffer = body })
        ≡ (packet (whole c mode body), finished c)
  unfolding end_message frame_message after_message reset
  end_whole op mode body c h v = ground (arith, v)

  all_but_last :
      (op mode : ℕ) (f : ClientFrame) (gs : List ClientFrame) (c : WebsocketProtocol)
      → AreMasked f gs
      → c.packet_buffer ≡ []
      → c.r_buffer ≡ []
      → (if op == text_mode || op == bin_mode then op else c.message_mode) ≡ mode
      → (op ≡ continuation) ⊎ (c.continue_buffer ≡ [])
      → op ≤ 2
      → (mode ≡ text_mode → utf8_valid (c.continue_buffer ++ payloads f gs) ≡ true)
      → take_frames utf8_valid op f gs c ≡ (
        replicate (length gs) (fail (errno eagain))
            ++ packet (whole c mode (c.continue_buffer ++ payloads f gs)) ∷ [],
        finished c,
      )
  unfolding reset
  all_but_last op mode f [] c masked empty e m first le v =
      ap (λ r. (r.0 ∷ [], r.1))
        (take_last utf8_valid op mode f c masked empty e m first
          ∙ end_whole op mode (c.continue_buffer ++ f.payload) c le v)
  all_but_last op mode f (g ∷ gs) c masked empty e m first le v =
      let c' = between utf8_valid c 0 mode (c.continue_buffer ++ f.payload) in
      let joins = append_assoc c.continue_buffer f.payload (payloads g gs) in
      let rest =
        all_but_last continuation mode g gs c' masked.1 refl refl refl (inl refl) (omega arith)
          (λ text. ap utf8_valid joins ∙ v text) in
      ap (λ r. let (os, c'') = take_frames utf8_valid continuation g gs r.1 in (r.0 ∷ os, c''))
        (take_part utf8_valid op mode f c masked.0 empty e m)
      ∙ ap (λ r. (fail (errno eagain) ∷ r.0, r.1)) rest
      ∙ ap
          (λ b. (
            fail (errno eagain) ∷ replicate (length gs) (fail (errno eagain))
                ++ packet (whole c mode b) ∷ [],
            finished c,
          ))
          joins

  -- A text or binary message in one masked frame or more, whose first frame comes to a connection that
  -- has no part of a message, and which is valid UTF-8 if it is text: nextFrame asks for more at every
  -- frame but the last, and then returns one message, with the payloads joined in the order of the
  -- frames, under the first frame's opcode and the connection's message number; the number then goes
  -- up by one and no part of a message is left.
  pub take_frames-whole :
      (mode : ℕ) (f : ClientFrame) (gs : List ClientFrame) (c : WebsocketProtocol)
      → (mode ≡ text_mode) ⊎ (mode ≡ bin_mode)
      → AreMasked f gs
      → c.packet_buffer ≡ []
      → c.r_buffer ≡ []
      → c.continue_buffer ≡ []
      → (mode ≡ text_mode → utf8_valid (payloads f gs) ≡ true)
      → take_frames utf8_valid mode f gs c ≡ (
        replicate (length gs) (fail (errno eagain)) ++ packet (whole c mode (payloads f gs)) ∷ [],
        finished c,
      )
  take_frames-whole mode f gs c either masked empty e first v =
      all_but_last mode mode f gs c masked empty e (ground (arith, either)) (inr first)
        (omega (arith, either)) (λ text. ap (λ b. utf8_valid (b ++ payloads f gs)) first ∙ v text)
      ∙ ap
          (λ b. (
            replicate (length gs) (fail (errno eagain))
                ++ packet (whole c mode (b ++ payloads f gs)) ∷ [],
            finished c,
          ))
          first
