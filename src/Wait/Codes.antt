-- ===== src/Wait/Codes.antt =====
-- server/router.go with eventloop/epoll.go: the errors of DecodePacket on a stream are none for which
-- a poller sends a close frame.
use netman.Common.{
  ℕ, zero, suc, ◌≡◌, refl, Bool, true, false, Option, none, some, Bytes, length, ◌==◌, arith,
  choose, ltb, take, ◌-◌,
}
use netman.Common.Endian.{read_u32_le}
use netman.Errors.{
  Error, Result, ok, err, Outcome, nothing, packet, fail, crash, stuck, Flow, exit, go_on,
}
use netman.Kernel.{Sys, ReadResult, got, read_failed, RecvResult, datagram, recv_failed}
use netman.Util.Message
use netman.Util.Message.{Message}
use netman.Util.DataPack.{DataPacker, unpack, get_header_length}
use netman.Connect.{BaseConnect, read, after_read}
use netman.Connect.Tls.{Tls, Reader, read_data}
use netman.Router.{
  RouterProtocol, begin, after_head, after_body, finish_round, complete, keep_read, decode_head,
  decode_body, then_body, decode_round, decode_packet, read_size, receive_from_udp, fill_from,
  after_datagram,
}
use netman.Router.Layout.{default_packer}
use netman.Wait.{Reaction, hang_up, close_with, if_udp, reaction}

abbrev pub is_code : Reaction → Bool
is_code hang_up = false
is_code (close_with n) = true
is_code if_udp = false

abbrev pub error_code : Option Error → Bool
error_code none = false
error_code (some e) = is_code (reaction e)

abbrev pub outcome_code : Outcome Message → Bool
outcome_code (fail e) = is_code (reaction e)
outcome_code nothing = false
outcome_code (packet m) = false
outcome_code crash = false
outcome_code stuck = false

abbrev pub flow_code : Flow Message → Bool
flow_code (exit o) = outcome_code o
flow_code go_on = false

abbrev pub result_code : Result Message → Bool
result_code (ok m) = false
result_code (err e) = is_code (reaction e)

-- A read fails with no error of the websocket protocol.
abbrev pub ReadsCodeless : {W : Type 0} → Reader W → Type 0
ReadsCodeless {W} rd = (c : BaseConnect) (size : ℕ) (w : W) → error_code (rd c size w).1 ≡ false

after_read-code : (c : BaseConnect) (r : ReadResult) → error_code (after_read c r).1 ≡ false
unfolding after_read reaction
after_read-code c (read_failed e) = refl
after_read-code c (got bs) = ground arith

complete-code : (c : RouterProtocol) (m : Option Message) → flow_code (complete c m).0 ≡ false
unfolding complete
complete-code c none = refl
complete-code c (some m) = refl

begin-code :
    (d : DataPacker) (c : RouterProtocol) (m : Result Message)
    → result_code m ≡ false
    → flow_code (begin (default_packer d) c m).0 ≡ false
unfolding begin
begin-code d c (err e) h = h
begin-code d c (ok m) h = ground arith

unpack-code : (d : DataPacker) (bs : Bytes) → result_code (unpack d bs) ≡ false
unfolding unpack read_u32_le reaction
unpack-code d bs = ground arith

finish_round-code : (c : RouterProtocol) → flow_code (finish_round c).0 ≡ false
unfolding finish_round
finish_round-code c = ground (arith, complete-code c c.temporary_message)

after_body-code :
    (c : RouterProtocol) (bs : Bytes) (e : Option Error)
    → error_code e ≡ false
    → flow_code (after_body c bs e).0 ≡ false
unfolding after_body reaction
after_body-code c bs none h = finish_round-code (keep_read c bs)
after_body-code c bs (some e) h = ground arith

after_head-code :
    (d : DataPacker) (c : RouterProtocol) (bs : Bytes) (e : Option Error)
    → error_code e ≡ false
    → flow_code (after_head (default_packer d) c bs e).0 ≡ false
unfolding after_head reaction
after_head-code d c bs none h = ground (arith, begin-code d c (unpack d bs) (unpack-code d bs))
after_head-code d c bs (some e) h = ground arith

fill_from-code :
    (d : DataPacker) (bs : Bytes) (m : Result Message)
    → result_code m ≡ false
    → outcome_code (fill_from (default_packer d) bs m) ≡ false
unfolding fill_from reaction
fill_from-code d bs (err e) h = h
fill_from-code d bs (ok m) h =
    choose (λ o. outcome_code o ≡ false) (ltb (length bs - get_header_length d) (Message.len m))
      refl refl

after_datagram-code :
    (d : DataPacker) (r : RecvResult) → outcome_code (after_datagram (default_packer d) r) ≡ false
unfolding after_datagram reaction get_header_length
after_datagram-code d (recv_failed e) = refl
after_datagram-code d (datagram bs) =
    let head = take 8 bs in ground (arith, fill_from-code d bs (unpack d head) (unpack-code d head))

module _ {W : Type 0} (sys : Sys W) where
  pub read-ReadsCodeless : ReadsCodeless (read sys)
  unfolding read
  read-ReadsCodeless c size w = after_read-code c (sys.read c.fd size w).0

  pub read_data-ReadsCodeless :
      (tls : Tls W) → ReadsCodeless (tls.tls_read (read sys)) → ReadsCodeless (read_data sys tls)
  unfolding read_data
  read_data-ReadsCodeless tls t c size w =
      choose (λ (r : Bytes × Option Error × BaseConnect × W). error_code r.1 ≡ false) c.tls_enable
        (t c size w) (read-ReadsCodeless c size w)

module _ {W : Type 0} (sys : Sys W) (tls : Tls W) (d : DataPacker) (udp_buffer : ℕ)
    (codeless : ReadsCodeless (read_data sys tls)) where
  decode_head-code :
      (c : RouterProtocol) (w : W)
      → flow_code (decode_head sys tls (default_packer d) udp_buffer c w).0 ≡ false
  unfolding decode_head
  decode_head-code c w =
      let size = (default_packer d).header_length in
      let (bs, e, base', w') = read_data sys tls c.base size w in
      choose (λ (r : Flow Message × RouterProtocol × W). flow_code r.0 ≡ false)
        (c.pack_data_length == 0)
        (after_head-code d (record c { base = base' }) bs e (codeless c.base size w)) refl

  decode_body-code :
      (c : RouterProtocol) (w : W)
      → flow_code (decode_body sys tls (default_packer d) udp_buffer c w).0 ≡ false
  unfolding decode_body
  decode_body-code c w =
      let size = read_size c in
      let (bs, e, base', w') = read_data sys tls c.base size w in
      after_body-code (record c { base = base' }) bs e (codeless c.base size w)

  then_body-code :
      (flow : Flow Message) (c : RouterProtocol) (w : W)
      → flow_code flow ≡ false
      → flow_code (then_body sys tls (default_packer d) udp_buffer flow c w).0 ≡ false
  unfolding then_body
  then_body-code (exit o) c w h = h
  then_body-code go_on c w h = decode_body-code c w

  decode_round-code :
      (c : RouterProtocol) (w : W)
      → flow_code (decode_round sys tls (default_packer d) udp_buffer c w).0 ≡ false
  unfolding decode_round
  decode_round-code c w = then_body-code _ _ _ (decode_head-code c w)

  then_round-code :
      (fuel : ℕ) (r : Flow Message × RouterProtocol × W)
      → flow_code r.0 ≡ false
      → outcome_code (decode_packet sys tls (default_packer d) udp_buffer fuel r.1 r.2).0 ≡ false
      → outcome_code
          (elim r.0 as (λ x. Outcome Message × RouterProtocol × W) [
            | exit o ↦ (o, r.1, r.2)
            | go_on ↦ decode_packet sys tls (default_packer d) udp_buffer fuel r.1 r.2
          ]).0
        ≡ false
  then_round-code fuel (exit o, c', w') h later = h
  then_round-code fuel (go_on, c', w') h later = later

  pub decode_packet-code :
      (fuel : ℕ) (c : RouterProtocol) (w : W)
      → outcome_code (decode_packet sys tls (default_packer d) udp_buffer fuel c w).0 ≡ false
  unfolding decode_packet receive_from_udp
  decode_packet-code zero c w = refl
  decode_packet-code (suc fuel) c w =
      let round = decode_round sys tls (default_packer d) udp_buffer c w in
      choose (λ (r : Outcome Message × RouterProtocol × W). outcome_code r.0 ≡ false) c.is_udp
        (after_datagram-code d (sys.recv_from c.fd udp_buffer w).0)
        (then_round-code fuel round (decode_round-code c w)
          (decode_packet-code fuel round.1 round.2))
