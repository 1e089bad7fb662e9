-- ===== src/Router/Datagram.antt =====
-- server/router.go, receiveFromUDP: a datagram holds one packet.
use netman.Common.{
  ℕ, ◌-◌, ◌%◌, ◌<◌, ◌≡◌, ap, ◌∙◌, false, Bytes, ◌++◌, length, take, ltb, if◌then◌else◌, arith,
  length-append, append_assoc, if_else, if_then, take-append_exact,
}
use netman.Common.Endian.{IsU32, u32_le}
use netman.Errors.{ok, packet, fail, udp_not_complete}
use netman.Kernel.{datagram}
use netman.Util.Message.{Message, set_data}
use netman.Util.DataPack.{DataPacker, pack, unpack, get_header_length}
use netman.Util.DataPack.RoundTrip.{header, Admits, unpack_header}
use netman.Router.{after_datagram, fill_from}
use netman.Router.Layout.{default_packer}

-- A received message.
abbrev pub received : ℕ → Bytes → Message
received i body = record {
  msg_id = i;
  data_len = length body;
  body = body;
  is_web_socket = false;
  opcode = 0;
}

-- A datagram with a whole header: what follows the header is the body, or is too short.
after_head_of :
    (d : DataPacker) (n i : ℕ) (rest : Bytes)
    → IsU32 n
    → unpack d (u32_le n ++ u32_le i) ≡ ok (header n i)
    → after_datagram (default_packer d) (datagram ((u32_le n ++ u32_le i) ++ rest)) ≡ (
        if ltb (length rest) n
        then fail udp_not_complete
        else packet (set_data (header n i) (take n rest)))
unfolding after_datagram get_header_length u32_le
after_head_of d n i rest hn read =
    let wire : Bytes = (u32_le n ++ u32_le i) ++ rest in
    let left : length wire - 8 ≡ length rest = omega arith in
    if_else (ltb (length wire) 8) _ _ (ground arith) ∙ rw (read, fill_from) (rw left)

module _ (d : DataPacker) (i : ℕ) (body : Bytes) (hi : IsU32 i) (hn : IsU32 (length body))
    (fits : Admits d (length body)) where
  -- A datagram that starts with a packed message, of a number and a length of 32 bits and within the
  -- packer's limit, delivers the message, whatever follows in the datagram.
  pub after_datagram-pack :
      (trailing : Bytes)
      → (wire : Bytes) × (pack d i body ≡ ok wire)
        × (after_datagram (default_packer d) (datagram (wire ++ trailing))
            ≡ packet (received i body))
  unfolding pack
  after_datagram-pack trailing =
      let n' : length body % 4294967296 ≡ length body = omega arith in
      let head = u32_le (length body) ++ u32_le i in
      (
        head ++ body,
        rw (n', append_assoc (u32_le (length body)) (u32_le i) body),
        ap (λ (b : Bytes). after_datagram (default_packer d) (datagram b))
              (append_assoc head body trailing)
            ∙ after_head_of d (length body) i (body ++ trailing) hn (unpack_header d _ i hn hi fits)
            ∙ if_else (ltb (length (body ++ trailing)) (length body)) _ _
                (ground (arith, length-append body trailing))
            ∙ ap packet (unfold set_data in rw (take-append_exact body trailing, n')),
      )

  -- A datagram of such a message that is cut inside the body is refused as not complete.
  pub after_datagram_cut :
      (part : Bytes)
      → length part < length body
      → after_datagram (default_packer d) (datagram ((u32_le (length body) ++ u32_le i) ++ part))
        ≡ fail udp_not_complete
  after_datagram_cut part cut =
      after_head_of d (length body) i part hn (unpack_header d _ i hn hi fits)
      ∙ if_then (ltb (length part) (length body)) _ _ (ground arith)
