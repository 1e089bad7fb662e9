-- ===== src/Runs/Frames.antt =====
-- Runs of server/websocket.go, server/websocket_frame.go and server/websocket_ctrl.go.
use netman.Common.{
  ℕ, ◌≡◌, ◌<◌, refl, arith, Bool, Bytes, [], ◌∷◌, ◌++◌, none, some, true, false, inl, inr, ◌⊎◌,
}
use netman.Common.Endian.{u16_be}
use netman.Connect.{read, after_read}
use netman.Connect.Tls.{read_data}
use netman.Errors.{errno, eagain, websocket_protocol_error, packet, fail}
use netman.World.{World, connection, world, plain}
use netman.Websocket.{WebsocketProtocol, text_mode, set_head, has_rsv, parse_head_bytes}
use netman.Websocket.Frame.{unmask_from, after_payload}
use netman.Websocket.Control.{encode, verify_close_code}
use netman.Websocket.CloseCode.{MaySend, verify_close_code_lem}
use netman.Websocket.Encode.{IsLength, encode-take_length}
use netman.Websocket.Payload.{unmask_twice, after_payload_split}
use netman.Websocket.Fragments.{ClientFrame, take_frames}
use netman.Websocket.Messages.{whole, finished, take_frames-whole}
use netman.Websocket.Head.{
  Declares, IsFresh, client_header, parse_head_bytes_client, parse_head_bytes_late,
}

abbrev pub shaken : WebsocketProtocol
shaken = record {
  base = connection;
  is_handle_shake = true;
  final = 0;
  fragment_length = 0;
  packet_buffer = [];
  r_buffer = [];
  continue_buffer = [];
  parse_header = false;
  opcode = 0;
  masks = [];
  msg_id = 5;
  query = [];
  message_mode = 0;
  parse_header_step = 0;
  header_bytes = [];
}

abbrev pub ascii : Bytes → Bool
ascii bs = true

abbrev mask : Bytes
mask = 1 ∷ 2 ∷ 3 ∷ 4 ∷ []

abbrev first_part : ClientFrame
first_part = record { mask = mask; payload = 104 ∷ 105 ∷ [] }

abbrev last_part : ClientFrame
last_part = record { mask = mask; payload = 33 ∷ [] }

take_frames-whole_example : take_frames ascii text_mode first_part (last_part ∷ []) shaken ≡ (
  fail (errno eagain) ∷ packet (whole ascii shaken text_mode (104 ∷ 105 ∷ 33 ∷ [])) ∷ [],
  finished ascii shaken,
)
take_frames-whole_example =
    take_frames-whole ascii text_mode first_part (last_part ∷ []) shaken (inl refl) (refl, refl)
      refl refl refl (λ text. refl)

unmask_twice_example : unmask_from 0 mask (unmask_from 0 mask (104 ∷ 105 ∷ [])) ≡ 104 ∷ 105 ∷ []
unmask_twice_example = unmask_twice 0 mask (104 ∷ 105 ∷ [])

abbrev inside : WebsocketProtocol
inside = record shaken { fragment_length = 3; opcode = 2; final = 1; parse_header = true }

after_payload_split_example :
    (c' : WebsocketProtocol) × (after_payload ascii inside (104 ∷ []) none
      ≡ (fail (errno eagain), c'))
    × (after_payload ascii c' (105 ∷ 33 ∷ []) none
        ≡ after_payload ascii inside (104 ∷ 105 ∷ 33 ∷ []) none)
after_payload_split_example =
    after_payload_split ascii inside (104 ∷ []) (105 ∷ 33 ∷ []) (omega arith) (omega arith)
      (omega arith)

encode-take_length_example :
    (second_byte : ℕ) × (ext : Bytes) × (encode 129 (104 ∷ [])
      ≡ 129 ∷ second_byte ∷ (ext ++ 104 ∷ []))
    × (second_byte < 128)
    × IsLength shaken 1 (set_head shaken 129 second_byte).fragment_length ext
encode-take_length_example = encode-take_length shaken 129 (104 ∷ []) (omega arith)

verify_close_code_lem_example :
    (MaySend 1005 × (verify_close_code 1005 ≡ none))
    ⊎ (¬ MaySend 1005 × (verify_close_code 1005 ≡ some websocket_protocol_error))
verify_close_code_lem_example = verify_close_code_lem 1005

-- The header of a frame of 300 bytes, all there, and with the mask still to come.
abbrev ready : World
ready = record { input = 1 ∷ 44 ∷ 1 ∷ 2 ∷ 3 ∷ 4 ∷ []; output = [] }

abbrev masks_come : World
masks_come = record { input = mask; output = [] }

abbrev drained : World
drained = record { input = []; output = [] }

abbrev length_only : World
length_only = record { input = 1 ∷ 44 ∷ []; output = [] }

fresh : IsFresh world plain shaken 130
unfolding has_rsv
fresh = (refl, refl, refl)

two_bytes : Declares 254 (1 ∷ 44 ∷ []) 300
unfolding u16_be
two_bytes = inr (inl (refl, refl, omega arith))

parse_head_bytes_client_example :
    parse_head_bytes world plain shaken 130 254 ready
    ≡ (none, client_header shaken connection 1 2 300 mask, drained)
unfolding read_data read after_read
parse_head_bytes_client_example =
    parse_head_bytes_client world plain shaken 1 2 254 300 (1 ∷ 44 ∷ []) mask connection connection
      ready masks_come drained refl refl (omega arith) (omega arith) two_bytes refl refl refl

parse_head_bytes_late_example :
    (c' : WebsocketProtocol) × (c'' : WebsocketProtocol) × (parse_head_bytes world plain shaken 130
        254 length_only
      ≡ (some (errno eagain), c', drained))
    × (parse_head_bytes world plain c' 130 254 masks_come ≡ (none, c'', drained))
    × (c''.parse_header ≡ true)
    × (c''.fragment_length ≡ 126)
unfolding read_data read after_read
parse_head_bytes_late_example =
    parse_head_bytes_late world plain shaken 130 (1 ∷ 44 ∷ []) mask (errno eagain) connection
      connection connection length_only drained drained masks_come drained fresh refl refl refl refl
      refl
