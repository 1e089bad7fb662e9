-- ===== src/Runs/Chats.antt =====
-- Runs of eventloop/epoll.go over server/websocket.go.
use netman.Common.{ℕ, ◌≡◌, refl, ◌∙◌, Bytes, [], ◌∷◌, none, some, Option, false, inl}
use netman.Kernel.{ReadResult, got, read_failed}
use netman.Connect.{read, after_read}
use netman.Connect.Tls.{Tls, read_data}
use netman.Connect.Order.{write-Extends}
use netman.Connect.Socket.{write-SameSocket}
use netman.Connect.Returns.{write-Kept}
use netman.Router.Stream.{StreamLaws}
use netman.Router.Stream.Plain.{Takes, ReadLaws, read-StreamLaws, read_data-StreamLaws}
use netman.Websocket.{
  parse_head_bytes, has_rsv, then_masks, parse_payload_length, keep_message_mode, set_head,
  read_length, take_length, parse_masks, read_masks, take_masks,
}
use netman.Common.Endian.{from_be}
use netman.Manager.{panicked, get}
use netman.Websocket.Decode.{
  decode_packet, read_header, fill_header, parse_filled, dispatch, after_header,
}
use netman.Websocket.Frame.{next_frame}
use netman.Websocket.Handshake.{Handshake}
use netman.Websocket.Safe.{Safe}
use netman.Websocket.Safe.Decode.{decode_packet-Safe}
use netman.Wait.{handle, on_event, on_readable, decode, after_decode}
use netman.Wait.Frame.{read-Keeps}
use netman.Wait.Codes.{read-ReadsCodeless}
use netman.Wait.Websockets.{Managed, Shared, beside, managing, websocket_session}
use netman.Wait.Websockets.Shared.{
  HeldAt, IsManaging, IsShared, TlsShares, beside-WriteLaws, same_manager, shared-Holds,
}
use netman.Wait.Websockets.Events.{ServesOpen, handle-ServesOpen}
use netman.World.{World, world, silent, incoming, outgoing, world-ReadLaws, world-WriteLaws}
use netman.Runs.Frames.{shaken, ascii}
use netman.Runs.Polling.{poller, at_rest, readable, clock}

-- Without TLS.
abbrev clear : Tls (Shared World)
clear = record { tls_read = λ f. f; tls_write = λ f. f; handshake = λ r s c w. (none, c, w) }

abbrev arriving : ℕ → Shared World → Bytes
arriving fd s = incoming fd s.1

beside-Takes :
    (fd size : ℕ) (r : ReadResult) (o : Option Managed) (w w' : World)
    → Takes (incoming fd) size w (r, w')
    → Takes {W = Shared World} (arriving fd) size (o, w) (r, (o, w'))
beside-Takes fd size (got bs) o w w' h = h
beside-Takes fd size (read_failed e) o w w' h = h

beside-ReadLaws : ReadLaws (beside world) arriving
beside-ReadLaws fd size s = beside-Takes fd size _ s.0 s.1 _ (world-ReadLaws fd size s.1)

clear-StreamLaws : StreamLaws (read_data (beside world) clear) arriving
clear-StreamLaws =
    let laws = read-StreamLaws (beside world) arriving beside-ReadLaws in
    read_data-StreamLaws (beside world) clear arriving laws laws

clear-TlsShares : TlsShares world clear
unfolding read
clear-TlsShares = record {
  read_keeps = read-Keeps (beside world);
  read_codeless = read-ReadsCodeless (beside world);
  read_shared = λ c size s. refl;
  write_holds = λ fd c bs s h.
      let kept =
        write-Kept (beside world) (λ s'. s'.0 ≡ s.0) (same_manager world s.0) c bs s h.1.attached
          refl in
      (
        kept.0,
        (
          (write-SameSocket (beside world) c bs s).0 ∙ h.0,
          (write-Extends (beside world) _ (beside-WriteLaws world outgoing world-WriteLaws) c bs s
              h.1).1,
        ),
        kept.1,
      );
  handshake_holds = λ fd c s h. h;
}

abbrev keyless : Handshake
keyless = record {
  target = λ bs. none;
  has_upgrade = λ bs. false;
  key = λ bs. none;
  query_of = λ bs. none;
  trim_lines = λ bs. bs;
  sha1 = λ bs. bs;
  base64 = λ bs. bs;
}

abbrev chats : Managed
chats = record { connects = (9, shaken) ∷ []; locked = false }

managed : IsManaging chats
managed = record { free = refl; is_map = (tt, tt); all = (((refl, at_rest), inl refl), tt) }

-- A ping of two bytes.
abbrev pinged : World
pinged = record { input = 137 ∷ 130 ∷ 1 ∷ 2 ∷ 3 ∷ 4 ∷ 105 ∷ 107 ∷ []; output = [] }

decode_packet-Safe_example : Safe (HeldAt 9) IsShared 4294967296 (
    decode_packet
      (beside world)
      clear
      (managing silent)
      ascii
      4294967296
      keyless
      shaken
      (some chats, pinged))
decode_packet-Safe_example =
    decode_packet-Safe (beside world) clear (managing silent) ascii 4294967296 keyless (HeldAt 9)
      IsShared
      (shared-Holds world clear silent 9 outgoing arriving world-WriteLaws clear-StreamLaws
        clear-TlsShares)
      shaken (some chats, pinged) ((refl, at_rest), inl refl, (chats, refl, managed))

handle-ServesOpen_example :
    ServesOpen world clear silent ascii 4294967296 keyless readable chats pinged (
      handle world
        (websocket_session world clear silent ascii 4294967296 keyless)
        clock
        poller
        readable
        chats
        pinged)
handle-ServesOpen_example =
    handle-ServesOpen world clear silent ascii 4294967296 keyless clock outgoing arriving
      world-WriteLaws clear-StreamLaws clear-TlsShares poller readable chats pinged managed

-- The header of a frame that declares a payload of 2 ^ 40 bytes: the handling of the event panics, though
-- no payload has come.
abbrev long_frame : World
long_frame = record {
  input = 130 ∷ 255 ∷ 0 ∷ 0 ∷ 1 ∷ 0 ∷ 0 ∷ 0 ∷ 0 ∷ 0 ∷ 1 ∷ 2 ∷ 3 ∷ 4 ∷ [];
  output = [];
}

one_header_panics :
    handle world
      (websocket_session world clear silent ascii 4294967296 keyless)
      clock
      poller
      readable
      chats
      long_frame
    ≡ panicked
unfolding handle get on_event on_readable decode after_decode decode_packet read_header fill_header
    parse_filled parse_head_bytes dispatch after_header next_frame read_data read after_read has_rsv
    then_masks parse_payload_length keep_message_mode set_head read_length take_length parse_masks
    read_masks take_masks from_be
one_header_panics = refl
