-- ===== src/Runs/Streams.antt =====
-- Runs of util/datapack.go, server/baseconnect.go and server/router.go.
use netman.Common.{◌≡◌, refl, arith, Bytes, [], ◌∷◌, ◌++◌, none, false, inl, inr, length, List}
use netman.Common.Endian.{read_u32_le}
use netman.Errors.{ok, packet}
use netman.Kernel.{datagram}
use netman.Util.Message.{set_data, len}
use netman.Util.DataPack.{DataPacker, pack, unpack, get_header_length}
use netman.Util.DataPack.RoundTrip.{header, unpack-pack}
use netman.Connect.{BaseConnect, write, is_out, epoll_out, read, after_read}
use netman.Connect.Tls.{read_data}
use netman.Connect.Order.{IsQueued, Extends, pending, write-Extends}
use netman.Connect.Drain.{Action, submit, writable, run, drain, run_in_order, drain_sends_all}
use netman.Router.{
  RouterProtocol, after_datagram, decode_packet, decode_round, decode_head, decode_body, then_body,
  after_head, begin, after_body, finish_round, complete, keep_read, tls_holds_rest, read_size,
}
use netman.Router.Layout.{default_packer}
use netman.Router.Stream.{stream, Sound}
use netman.Router.Stream.Ends.{Ends, decode_packet-Ends}
use netman.Router.Stream.Sound.{decode_packet-Sound}
use netman.Router.Stream.Delivery.{Delivered, calls, calls-Delivered}
use netman.Router.Datagram.{received, after_datagram-pack}
use netman.World.{
  World, connection, world, plain, incoming, outgoing, world-StreamLaws, world-WriteLaws,
  world-StaysWritable,
}

abbrev limited : DataPacker
limited = record { max_body_length = 4 }

abbrev hi : Bytes
hi = 104 ∷ 105 ∷ []

unpack-pack_example :
    (head : Bytes) × (pack limited 7 hi ≡ ok (head ++ hi))
    × (length head ≡ 8)
    × (unpack limited head ≡ ok (header 2 7))
unpack-pack_example = unpack-pack limited 7 hi (omega arith) (omega arith) (inr (omega arith))

abbrev long_header : Bytes
long_header = 5 ∷ 0 ∷ 0 ∷ 0 ∷ 7 ∷ 0 ∷ 0 ∷ 0 ∷ []

at_rest : IsQueued connection
at_rest = record { attached = (record { epfd = 3 }, refl); drained = λ h. refl }

abbrev quiet : World
quiet = record { input = []; output = [] }

abbrev abc : Bytes
abc = 97 ∷ 98 ∷ 99 ∷ []

write-Extends_example : Extends outgoing connection quiet abc (write world connection abc quiet)
write-Extends_example = write-Extends world outgoing world-WriteLaws connection abc quiet at_rest

abbrev actions : List Action
actions = submit abc ∷ submit hi ∷ writable ∷ writable ∷ []

run_in_order_example :
    let (taken, c', w') = run world actions connection quiet in
    (outgoing 9 w' ++ pending c' ≡ (outgoing 9 quiet ++ pending connection) ++ taken) × IsQueued c'
run_in_order_example = run_in_order world outgoing world-WriteLaws actions connection quiet at_rest

-- The connection after Write has sent two of the three bytes.
abbrev waiting : BaseConnect
waiting = record connection { state = epoll_out; write_q = record { inner = (99 ∷ []) ∷ abc ∷ [] } }

waiting-IsQueued : IsQueued waiting
waiting-IsQueued = record { attached = (record { epfd = 3 }, refl); drained = λ h. cc }

drain_sends_all_example :
    let (c', w') = drain world 7 waiting quiet in
    (is_out c'.state ≡ false)
    × (pending c' ≡ [])
    × (outgoing 9 w' ≡ outgoing 9 quiet ++ pending waiting)
drain_sends_all_example =
    drain_sends_all world outgoing world-WriteLaws world-StaysWritable 7 waiting quiet
      waiting-IsQueued (omega arith)

-- A server's connection, with a packet on its stream and the front of the next.
abbrev served : RouterProtocol
served = record {
  base = connection;
  read_buffer = [];
  pack_data_length = 0;
  temporary_message = none;
}

abbrev on_stream : World
on_stream = record { input = 2 ∷ 0 ∷ 0 ∷ 0 ∷ 7 ∷ 0 ∷ 0 ∷ 0 ∷ 104 ∷ 105 ∷ 1 ∷ 0 ∷ []; output = [] }

decode_packet-Sound_example :
    Sound
      (incoming 9)
      served
      on_stream
      (decode_packet world plain (default_packer limited) 65507 4294967297 served on_stream)
decode_packet-Sound_example =
    decode_packet-Sound world plain limited 65507 incoming world-StreamLaws 4294967297 served
      on_stream refl (inl (record { no_packet = refl; no_bytes = refl })) (omega arith)

decode_packet-Ends_example :
    Ends (decode_packet world plain (default_packer limited) 65507 4294967297 served on_stream).0
    × (decode_packet world plain (default_packer limited) 65507 9223372036854775807 served on_stream
        ≡ decode_packet world plain (default_packer limited) 65507 4294967297 served on_stream)
decode_packet-Ends_example =
    decode_packet-Ends world plain limited 65507 incoming world-StreamLaws 4294967297
      9223372036854775807 served on_stream (inl (record { no_packet = refl; no_bytes = refl }))
      (omega arith) (omega arith)

calls-Delivered_example :
    Delivered
      (incoming 9)
      (stream (incoming 9) served on_stream)
      (calls world plain limited 65507 3 served on_stream)
calls-Delivered_example =
    calls-Delivered world plain limited 65507 incoming world-StreamLaws 3 served on_stream refl
      (inl (record { no_packet = refl; no_bytes = refl }))

after_datagram-pack_example :
    (wire : Bytes) × (pack limited 7 hi ≡ ok wire)
    × (after_datagram (default_packer limited) (datagram (wire ++ abc)) ≡ packet (received 7 hi))
after_datagram-pack_example =
    after_datagram-pack limited 7 hi (omega arith) (omega arith) (inr (omega arith)) abc

-- DecodePacket delivers the first packet, and leaves the front of the second.
delivered :
    let (o, c, w) = decode_packet world plain (default_packer limited) 65507 2 served on_stream in
    (o ≡ packet (received 7 hi)) × (w.input ≡ 1 ∷ 0 ∷ [])
unfolding decode_packet decode_round decode_head decode_body then_body after_head begin after_body
    finish_round complete keep_read tls_holds_rest read_size read_data read after_read unpack
    get_header_length read_u32_le set_data len
delivered = (refl, refl)
