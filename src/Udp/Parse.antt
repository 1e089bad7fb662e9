-- ===== src/Udp/Parse.antt =====
-- server/acceptor_udp_base.go: which datagrams are taken.
use netman.Common.{
  ℕ, ◌-◌, ◌≡◌, refl, Bool, true, false, not, Bytes, ◌++◌, length, ltb, ◌==◌, if◌then◌else◌, arith,
}
use netman.Common.Endian.{IsU32, u32_le}
use netman.Errors.{ok, err, udp_not_complete, reject_if, ◌>>◌}
use netman.Util.Message
use netman.Util.Message.{Message, set_data}
use netman.Util.DataPack.{DataPacker, get_header_length}
use netman.Util.DataPack.RoundTrip.{header, Admits, unpack_header}
use netman.Router.Layout.{default_packer}
use netman.Udp.{parse_datagram}

judged :
    (b : Bool) (m : Message)
    → (reject_if (not b) udp_not_complete >> ok m) ≡ (if b then ok m else err udp_not_complete)
judged true m = refl
judged false m = refl

-- A datagram is taken only if its body has just the length that its header declares.
pub parse_datagram_exact :
    (d : DataPacker) (n i : ℕ) (rest : Bytes)
    → IsU32 n
    → IsU32 i
    → Admits d n
    → parse_datagram (default_packer d) ((u32_le n ++ u32_le i) ++ rest)
      ≡ (if length rest == n then ok (header n i) else err udp_not_complete)
unfolding parse_datagram get_header_length u32_le Message.len
parse_datagram_exact d n i rest hn hi fits =
    let wire : Bytes = (u32_le n ++ u32_le i) ++ rest in
    let left : length wire - 8 ≡ length rest = omega arith in
    let long : ltb (length wire) 8 ≡ false = ground arith in
    rw long (rw (unpack_header d n i hn hi fits) (rw left (judged (length rest == n) (header n i))))
