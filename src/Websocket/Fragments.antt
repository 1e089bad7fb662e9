-- ===== src/Websocket/Fragments.antt =====
-- server/websocket_frame.go: a frame of a message that comes in several.
use netman.Common.{
  ℕ, ◌≡◌, sym, Bool-cases, ap, ap₂, ◌∙◌, ◌⊎◌, inl, inr, Bool, true, false, ◌&&◌, ◌||◌, none, List,
  Bytes, [], ◌∷◌, ◌++◌, length, length-zero, leb, ◌==◌, if◌then◌else◌, arith, if_then, if_else,
}
use netman.Errors.{errno, eagain, Outcome, fail}
use netman.Util.Message.{Message}
use netman.Websocket.{WebsocketProtocol, reset, continuation, text_mode, bin_mode, step_masks}
use netman.Websocket.Frame.{
  unmask_from, decode_fragment, join_continued, end_message, end_frame, after_payload,
}
use netman.Websocket.Payload.{unmask_twice, length-unmask, after_payload-taken}

-- A frame as a client makes it: its payload goes out masked.
pub record ClientFrame : Type 0 where
  pub mask : Bytes
  pub payload : Bytes

-- The state once the frame's header was parsed.
abbrev pub with_header : ℕ → ℕ → ClientFrame → WebsocketProtocol → WebsocketProtocol
with_header final op f c = record c {
  final = final;
  fragment_length = length f.payload;
  opcode = op;
  masks = f.mask;
  parse_header = true;
  parse_header_step = step_masks;
  header_bytes = [];
  message_mode = if op == text_mode || op == bin_mode then op else c.message_mode;
}

module _ (utf8_valid : Bytes → Bool) where
  abbrev pub take_frame :
      ℕ → ℕ → ClientFrame → WebsocketProtocol → Outcome Message × WebsocketProtocol
  take_frame final op f c =
      after_payload utf8_valid (with_header final op f c) (unmask_from 0 f.mask f.payload) none

  -- The frames of one message, the first with the opcode `op`, and what nextFrame returns for each.
  abbrev pub take_frames :
      ℕ
      → ClientFrame
      → List ClientFrame
      → WebsocketProtocol
      → List (Outcome Message) × WebsocketProtocol
  take_frames op f [] c = let (o, c') = take_frame 1 op f c in (o ∷ [], c')
  take_frames op f (g ∷ gs) c =
      let (o, c') = take_frame 0 op f c in
      let (os, c'') = take_frames continuation g gs c' in (o ∷ os, c'')

  -- The state of a connection that expects a frame of the mode `mode`, the payloads so far joined.
  abbrev pub between : WebsocketProtocol → ℕ → ℕ → Bytes → WebsocketProtocol
  between c final mode sofar = record (reset c) {
    final = final;
    packet_buffer = [];
    continue_buffer = sofar;
    message_mode = mode;
  }

  -- A frame's own payload, as end_frame finds it.
  abbrev unmasked : ℕ → ℕ → ClientFrame → WebsocketProtocol → WebsocketProtocol
  unmasked final op f c = record (with_header final op f c) {
    r_buffer = unmask_from 0 f.mask f.payload;
  }

  take_frame-end_frame :
      (final op : ℕ) (f : ClientFrame) (c : WebsocketProtocol)
      → c.r_buffer ≡ []
      → take_frame final op f c ≡ end_frame utf8_valid (unmasked final op f c)
  take_frame-end_frame final op f c e =
      after_payload-taken utf8_valid (with_header final op f c) (unmask_from 0 f.mask f.payload)
        (ground (arith, length-unmask 0 f.mask f.payload))
      ∙ if_then (length (c.r_buffer ++ unmask_from 0 f.mask f.payload) == length f.payload) _ _
          (ground (arith, length-unmask 0 f.mask f.payload))
      ∙ ap
          (λ b.
            end_frame utf8_valid (record (with_header final op f c) {
              r_buffer = b ++ unmask_from 0 f.mask f.payload;
            }))
          e

  decode_unmasked :
      (final op : ℕ) (f : ClientFrame) (c : WebsocketProtocol)
      → length f.mask ≡ 4
      → c.packet_buffer ≡ []
      → decode_fragment (unmasked final op f c)
        ≡ record (unmasked final op f c) { packet_buffer = f.payload }
  unfolding decode_fragment
  decode_unmasked final op f c four empty =
      ap (λ b. record (unmasked final op f c) { packet_buffer = b })
        (ap₂ ◌++◌ empty
          (if_then (length f.mask == 4) _ _ (ground arith) ∙ unmask_twice 0 f.mask f.payload))

  -- A frame that is not the last.
  pub take_part :
      (op mode : ℕ) (f : ClientFrame) (c : WebsocketProtocol)
      → length f.mask ≡ 4
      → c.packet_buffer ≡ []
      → c.r_buffer ≡ []
      → (if op == text_mode || op == bin_mode then op else c.message_mode) ≡ mode
      → take_frame 0 op f c
        ≡ (fail (errno eagain), between c 0 mode (c.continue_buffer ++ f.payload))
  unfolding end_frame reset
  take_part op mode f c four empty e m =
      take_frame-end_frame 0 op f c e
      ∙ ap
          (λ d. (
            fail (errno eagain),
            record (reset d) {
              packet_buffer = [];
              continue_buffer = d.continue_buffer ++ d.packet_buffer;
            },
          ))
          (decode_unmasked 0 op f c four empty)
      ∙ ap (λ n. (fail (errno eagain), between c 0 n (c.continue_buffer ++ f.payload))) m

  none_before :
      (op : ℕ) (c : WebsocketProtocol)
      → (op ≡ continuation) ⊎ (c.continue_buffer ≡ [])
      → (op == continuation && leb 1 (length c.continue_buffer)) ≡ false
      → c.continue_buffer ≡ []
  none_before op c (inl o) alone = length-zero c.continue_buffer (ground arith)
  none_before op c (inr b) alone = b

  joined :
      (op mode : ℕ) (f : ClientFrame) (c : WebsocketProtocol)
      → (op ≡ continuation) ⊎ (c.continue_buffer ≡ [])
      → join_continued op
          (record (between c 1 mode c.continue_buffer) { packet_buffer = f.payload })
        ≡ record (between c 1 mode []) { packet_buffer = c.continue_buffer ++ f.payload }
  unfolding join_continued
  joined op mode f c h =
      elim (Bool-cases (op == continuation && leb 1 (length c.continue_buffer))) [
        | inl goes_on ↦ if_then (op == continuation && leb 1 (length c.continue_buffer)) _ _ goes_on
        | inr alone ↦
            if_else (op == continuation && leb 1 (length c.continue_buffer)) _ _ alone
            ∙ ap (λ b. record (between c 1 mode b) { packet_buffer = f.payload })
                (none_before op c h alone)
            ∙ ap (λ b. record (between c 1 mode []) { packet_buffer = b ++ f.payload })
                (sym (none_before op c h alone))
      ]

  -- The last frame: the payloads are joined where it goes on with an earlier one.
  pub take_last :
      (op mode : ℕ) (f : ClientFrame) (c : WebsocketProtocol)
      → length f.mask ≡ 4
      → c.packet_buffer ≡ []
      → c.r_buffer ≡ []
      → (if op == text_mode || op == bin_mode then op else c.message_mode) ≡ mode
      → (op ≡ continuation) ⊎ (c.continue_buffer ≡ [])
      → take_frame 1 op f c
        ≡ end_message utf8_valid op
            (record (between c 1 mode []) { packet_buffer = c.continue_buffer ++ f.payload })
  unfolding end_frame reset
  take_last op mode f c four empty e m h =
      take_frame-end_frame 1 op f c e
      ∙ ap (λ d. end_message utf8_valid op (join_continued op (reset d)))
          (decode_unmasked 1 op f c four empty)
      ∙ ap
          (λ n. end_message utf8_valid op (
            join_continued op
              (record (between c 1 n c.continue_buffer) { packet_buffer = f.payload })))
          m
      ∙ ap (end_message utf8_valid op) (joined op mode f c h)
