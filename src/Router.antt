-- ===== src/Router.antt =====
-- server/router.go: the connection of a TCP or UDP server, which cuts the stream into packets.
pub mod Layout
pub mod Stream
pub mod Datagram
pub mod Close
pub mod ClearAll
pub mod Limit
use netman.Common.{
  ℕ, zero, suc, ◌+◌, ◌-◌, ◌%◌, ◌^◌, Bool, true, false, ◌&&◌, Option, none, some, Bytes, [], ◌++◌,
  length, take, drop, ltb, ◌==◌, if◌then◌else◌,
}
use netman.Common.Int.{ℤ, pos, ◌-ℤ◌, geb}
use netman.Errors.{
  Error, Result, ok, err, Outcome, nothing, packet, fail, crash, stuck, Flow, exit, go_on, is_gone,
  is_eof, eof, errno, head_bytes_length_fail, udp_not_packet, udp_not_complete,
}
use netman.Kernel.{Sys, RecvResult, datagram, recv_failed, Call, returns}
use netman.Util.Message
use netman.Util.Message.{Message, set_data}
use netman.Connect.{BaseConnect}
use netman.Connect.Tls.{Tls, read_data, write_data}
use Layout.{Packer}

pub record RouterProtocol : Type 0 where
  pub base : BaseConnect
  pub open base use *
  pub read_buffer : Bytes
  pub pack_data_length : ℕ
  pub temporary_message : Option Message

unfoldable pub new_router_protocol : BaseConnect → RouterProtocol
new_router_protocol base = record {
  base = base;
  read_buffer = [];
  pack_data_length = 0;
  temporary_message = none;
}

-- `uint32(a - b)`.
abbrev pub sub32 : ℕ → ℕ → ℕ
sub32 a b = (a + 2 ^ 32 - b % 2 ^ 32) % 2 ^ 32

-- How much to read at once: what the packet still wants, and under TLS a record at most.
unfoldable pub read_size : RouterProtocol → ℕ
read_size c =
    let size = sub32 c.pack_data_length (length c.read_buffer) in
    if c.handshake_completed && ltb 16384 size then 16384 else size

-- The packet is whole: the message takes its body, and the state is as before the packet.
unfoldable pub complete : RouterProtocol → Option Message → Flow Message × RouterProtocol
unfolding set_data
complete c none = (exit crash, c)
complete c (some m) =
    let m' = set_data m c.read_buffer in
    (
      exit (packet m'),
      record {
        base = record c.base { tls_raw_size = pos 0 };
        read_buffer = [];
        pack_data_length = 0;
        temporary_message = some m';
      },
    )

-- The bytes that were read join the buffer, and leave the count of raw TLS bytes.
unfoldable pub keep_read : RouterProtocol → Bytes → RouterProtocol
unfolding ◌-ℤ◌
keep_read c bs =
    let raw = if c.handshake_completed then c.tls_raw_size -ℤ pos (length bs) else c.tls_raw_size in
    record c { base = record c.base { tls_raw_size = raw }; read_buffer = c.read_buffer ++ bs }

-- The TLS layer holds enough raw bytes for the rest of the packet.
unfoldable pub tls_holds_rest : RouterProtocol → Bool
tls_holds_rest c =
    c.handshake_completed
    && geb c.tls_raw_size (pos (sub32 c.pack_data_length (length c.read_buffer)))

-- A body that was read without an error; `go_on` is the call of DecodePacket again.
unfoldable pub finish_round : RouterProtocol → Flow Message × RouterProtocol
unfolding complete tls_holds_rest
finish_round c =
    if length c.read_buffer == c.pack_data_length
    then complete c c.temporary_message
    else if tls_holds_rest c
    then (go_on, c)
    else (exit nothing, c)

-- A body that was read with an error: the bytes that came with it are kept, unless the descriptor
-- is gone or the stream has ended.
unfoldable pub after_body : RouterProtocol → Bytes → Option Error → Flow Message × RouterProtocol
unfolding finish_round keep_read
after_body c bs none = finish_round (keep_read c bs)
after_body c bs (some e) =
    if length bs == 0 && is_eof e
    then (exit (fail e), c)
    else if is_gone e
    then (exit (fail eof), c)
    else (
      exit (fail e),
      record c { read_buffer = if ltb 0 (length bs) then c.read_buffer ++ bs else c.read_buffer },
    )

module _ (p : Packer) where
  -- The header's length decides whether a body follows.
  unfoldable pub begin : RouterProtocol → Result Message → Flow Message × RouterProtocol
  unfolding Message.len
  begin c (err e) = (exit (fail e), c)
  begin c (ok m) = if Message.len m == 0 then (exit (packet m), c) else (
    go_on,
    record c { pack_data_length = Message.len m % 2 ^ 32; temporary_message = some m },
  )

  -- A header that was read.
  unfoldable pub after_head : RouterProtocol → Bytes → Option Error → Flow Message × RouterProtocol
  unfolding begin
  after_head c head none =
      if length head == p.header_length
      then begin c (p.unpack head)
      else (exit (fail head_bytes_length_fail), c)
  after_head c head (some e) =
      if length head == 0 && is_eof e
      then (exit (fail eof), c)
      else if is_gone e
      then (exit (fail eof), c)
      else (exit (fail e), c)

  -- receiveFromUDP, from the header's message on.
  unfoldable pub fill_from : Bytes → Result Message → Outcome Message
  unfolding Message.len set_data
  fill_from bs (err e) = fail e
  fill_from bs (ok m) =
      if ltb (length bs - p.header_length) (Message.len m)
      then fail udp_not_complete
      else packet (set_data m (take (Message.len m) (drop p.header_length bs)))

  -- receiveFromUDP, from the datagram on.
  unfoldable pub after_datagram : RecvResult → Outcome Message
  unfolding fill_from
  after_datagram (recv_failed e) = fail (errno e)
  after_datagram (datagram bs) =
      if ltb (length bs) p.header_length
      then fail udp_not_packet
      else fill_from bs (p.unpack (take p.header_length bs))

module _ {W : Type 0} (sys : Sys W) (tls : Tls W) (p : Packer) (udp_buffer : ℕ) where
  -- DecodePacket, the header: it is read where no packet is begun.
  unfoldable pub decode_head : RouterProtocol → W → Flow Message × RouterProtocol × W
  decode_head c w =
      if c.pack_data_length == 0
      then (let (bs, e, base', w') = read_data sys tls c.base p.header_length w in
          let (flow, c') = after_head p (record c { base = base' }) bs e in (flow, c', w'))
      else (go_on, c, w)

  -- DecodePacket, the body.
  unfoldable pub decode_body : RouterProtocol → W → Flow Message × RouterProtocol × W
  decode_body c w =
      let (bs, e, base', w') = read_data sys tls c.base (read_size c) w in
      let (flow, c') = after_body (record c { base = base' }) bs e in (flow, c', w')

  unfoldable pub receive_from_udp : RouterProtocol → W → Outcome Message × RouterProtocol × W
  receive_from_udp c w =
      let (r, w') = sys.recv_from c.fd udp_buffer w in (after_datagram p r, c, w')

  unfoldable pub then_body : Flow Message → RouterProtocol → W → Flow Message × RouterProtocol × W
  then_body (exit o) c w = (exit o, c, w)
  then_body go_on c w = decode_body c w

  -- DecodePacket on a stream, up to its call of itself.
  unfoldable pub decode_round : RouterProtocol → W → Flow Message × RouterProtocol × W
  unfolding then_body
  decode_round c w = let (flow, c', w') = decode_head c w in then_body flow c' w'

  -- DecodePacket; the fuel bounds the calls of itself.
  unfoldable pub decode_packet : ℕ → RouterProtocol → W → Outcome Message × RouterProtocol × W
  decode_packet zero c w = (stuck, c, w)
  decode_packet (suc fuel) c w =
      if c.is_udp
      then receive_from_udp c w
      else (let (flow, c', w') = decode_round c w in
          elim flow [ exit o ↦ (o, c', w') | go_on ↦ decode_packet fuel c' w' ])

  -- Send.
  unfoldable pub send :
      RouterProtocol → ℕ → Bytes → W → Call (ℤ × Option Error) × RouterProtocol × W
  send c msg_id bs w = elim (p.pack msg_id bs) [
    | err e ↦ (returns (pos 0, some e), c, w)
    | ok data_pack ↦
        let base₀ =
          if c.tls_enable
          then record c.base { tls_write_packet_size = length data_pack }
          else c.base in
        let (r, base', w') = write_data sys tls base₀ data_pack w in
        (r, record c { base = base' }, w')
  ]
