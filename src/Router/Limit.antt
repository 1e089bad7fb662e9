-- ===== src/Router/Limit.antt =====
-- server/router.go with util/datapack.go: the packer's limit bounds what a connection waits for and what
-- it delivers.
use netman.Common.{
  ℕ, zero, suc, ◌≤◌, ◌<◌, ◌≡◌, Option, none, some, Bytes, length, ◌==◌, arith, choose, prove_then,
  prove_else, Bool-cases, inl, inr, ◌&&◌, ltb, take, drop, ◌-◌, length-take,
}
use netman.Errors.{
  Error, Result, ok, err, Outcome, nothing, packet, fail, crash, stuck, Flow, exit, go_on, is_eof,
  is_gone,
}
use netman.Kernel.{Sys, RecvResult, datagram, recv_failed}
use netman.Util.Message
use netman.Util.Message.{Message, set_data}
use netman.Util.DataPack.{DataPacker, unpack}
use netman.Connect.Tls.{Tls, read_data}
use netman.Router.{
  RouterProtocol, begin, after_head, after_body, finish_round, complete, keep_read, tls_holds_rest,
  decode_head, decode_body, then_body, decode_round, decode_packet, receive_from_udp, read_size,
  fill_from, after_datagram,
}
use netman.Util.DataPack.Limit.{HeaderFits, unpack-HeaderFits}
use netman.Router.Layout.{default_packer}

module _ (limit : ℕ) where
  -- A message whose body is within the limit, if there is one.
  abbrev pub BodyFits : Outcome Message → Type 0
  BodyFits (packet m) = length m.body ≤ limit
  BodyFits nothing = Unit {0}
  BodyFits (fail e) = Unit {0}
  BodyFits crash = Unit {0}
  BodyFits stuck = Unit {0}

  -- What a call of DecodePacket leaves.
  abbrev pub Limited : {W : Type 0} → Outcome Message × RouterProtocol × W → Type 0
  Limited (packet m, c, w) = (length m.body ≤ limit) × (c.pack_data_length ≤ limit)
  Limited (nothing, c, w) = c.pack_data_length ≤ limit
  Limited (fail e, c, w) = c.pack_data_length ≤ limit
  Limited (crash, c, w) = c.pack_data_length ≤ limit
  Limited (stuck, c, w) = c.pack_data_length ≤ limit

  Bounded-Limited :
      {W : Type 0} (r : Outcome Message × RouterProtocol × W)
      → BodyFits r.0 × (r.1.pack_data_length ≤ limit)
      → Limited r
  Bounded-Limited (packet m, c, w) h = h
  Bounded-Limited (nothing, c, w) h = h.1
  Bounded-Limited (fail e, c, w) h = h.1
  Bounded-Limited (crash, c, w) h = h.1
  Bounded-Limited (stuck, c, w) h = h.1

  abbrev pub FlowFits : Flow Message → Type 0
  FlowFits (exit o) = BodyFits o
  FlowFits go_on = Unit {0}

  abbrev Fits : Flow Message × RouterProtocol → Type 0
  Fits (flow, c) = FlowFits flow × (c.pack_data_length ≤ limit)

  complete-Fits :
      (c : RouterProtocol) (m : Option Message)
      → length c.read_buffer ≤ limit
      → c.pack_data_length ≤ limit
      → Fits (complete c m)
  unfolding complete set_data
  complete-Fits c none h k = (tt, k)
  complete-Fits c (some m) h k = (h, omega arith)

  begin-Fits :
      (d : DataPacker) (c : RouterProtocol) (m : Result Message)
      → HeaderFits limit m
      → c.pack_data_length ≤ limit
      → Fits (begin (default_packer d) c m)
  unfolding begin Message.len
  begin-Fits d c (err e) h k = (tt, k)
  begin-Fits d c (ok m) h k = choose Fits (m.data_len == 0) (omega arith, k) (tt, omega arith)

  finish_round-Fits : (c : RouterProtocol) → c.pack_data_length ≤ limit → Fits (finish_round c)
  unfolding finish_round
  finish_round-Fits c k = elim (Bool-cases (length c.read_buffer == c.pack_data_length)) [
    | inl whole ↦
        prove_then Fits (length c.read_buffer == c.pack_data_length) _ _ whole
          (complete-Fits c c.temporary_message (ground arith) k)
    | inr more ↦
        prove_else Fits (length c.read_buffer == c.pack_data_length) _ _ more
          (choose Fits (tls_holds_rest c) (tt, k) (tt, k))
  ]

  after_body-Fits :
      (c : RouterProtocol) (bs : Bytes) (e : Option Error)
      → c.pack_data_length ≤ limit
      → Fits (after_body c bs e)
  unfolding after_body keep_read
  after_body-Fits c bs none k = finish_round-Fits (keep_read c bs) k
  after_body-Fits c bs (some e) k =
      choose Fits (length bs == 0 && is_eof e) (tt, k) (choose Fits (is_gone e) (tt, k) (tt, k))

  module _ (d : DataPacker) (same : d.max_body_length ≡ limit) (some_limit : 0 < limit) where
    after_head-Fits :
        (c : RouterProtocol) (bs : Bytes) (e : Option Error)
        → c.pack_data_length ≤ limit
        → Fits (after_head (default_packer d) c bs e)
    unfolding after_head
    after_head-Fits c bs none k =
        choose Fits (length bs == (default_packer d).header_length)
          (begin-Fits d c (unpack d bs) (unpack-HeaderFits limit d bs same some_limit) k) (tt, k)
    after_head-Fits c bs (some e) k =
        choose Fits (length bs == 0 && is_eof e) (tt, k) (choose Fits (is_gone e) (tt, k) (tt, k))

    fill_from-Fits :
        (bs : Bytes) (m : Result Message)
        → HeaderFits limit m
        → BodyFits (fill_from (default_packer d) bs m)
    unfolding fill_from set_data Message.len
    fill_from-Fits bs (err e) h = tt
    fill_from-Fits bs (ok m) h =
        choose BodyFits (ltb (length bs - (default_packer d).header_length) m.data_len) tt
          (omega (arith, length-take m.data_len (drop (default_packer d).header_length bs)))

    after_datagram-Fits : (r : RecvResult) → BodyFits (after_datagram (default_packer d) r)
    unfolding after_datagram
    after_datagram-Fits (recv_failed e) = tt
    after_datagram-Fits (datagram bs) =
        let head = take (default_packer d).header_length bs in
        choose BodyFits (ltb (length bs) (default_packer d).header_length) tt
          (fill_from-Fits bs (unpack d head) (unpack-HeaderFits limit d head same some_limit))

    module _ {W : Type 0} (sys : Sys W) (tls : Tls W) (udp_buffer : ℕ) where
      abbrev StepFits : Flow Message × RouterProtocol × W → Type 0
      StepFits (flow, c, w) = Fits (flow, c)

      decode_head-Fits :
          (c : RouterProtocol) (w : W)
          → c.pack_data_length ≤ limit
          → StepFits (decode_head sys tls (default_packer d) udp_buffer c w)
      unfolding decode_head
      decode_head-Fits c w k =
          let (bs, e, base', w') = read_data sys tls c.base (default_packer d).header_length w in
          choose StepFits (c.pack_data_length == 0)
            (after_head-Fits (record c { base = base' }) bs e k) (tt, k)

      decode_body-Fits :
          (c : RouterProtocol) (w : W)
          → c.pack_data_length ≤ limit
          → StepFits (decode_body sys tls (default_packer d) udp_buffer c w)
      unfolding decode_body
      decode_body-Fits c w k =
          let (bs, e, base', w') = read_data sys tls c.base (read_size c) w in
          after_body-Fits (record c { base = base' }) bs e k

      then_body-Fits :
          (flow : Flow Message) (c : RouterProtocol) (w : W)
          → Fits (flow, c)
          → StepFits (then_body sys tls (default_packer d) udp_buffer flow c w)
      unfolding then_body
      then_body-Fits (exit o) c w h = h
      then_body-Fits go_on c w h = decode_body-Fits c w h.1

      decode_round-Fits :
          (c : RouterProtocol) (w : W)
          → c.pack_data_length ≤ limit
          → StepFits (decode_round sys tls (default_packer d) udp_buffer c w)
      unfolding decode_round
      decode_round-Fits c w k = then_body-Fits _ _ _ (decode_head-Fits c w k)

      abbrev Bounded : Outcome Message × RouterProtocol × W → Type 0
      Bounded (o, c, w) = BodyFits o × (c.pack_data_length ≤ limit)

      then_round-Bounded :
          (fuel : ℕ) (r : Flow Message × RouterProtocol × W)
          → StepFits r
          → (r.1.pack_data_length ≤ limit
              → Bounded (decode_packet sys tls (default_packer d) udp_buffer fuel r.1 r.2))
          → Bounded (elim r.0 [
            | exit o ↦ (o, r.1, r.2)
            | go_on ↦ decode_packet sys tls (default_packer d) udp_buffer fuel r.1 r.2
          ])
      then_round-Bounded fuel (exit o, c, w) h later = h
      then_round-Bounded fuel (go_on, c, w) h later = later h.1

      decode_packet-Bounded :
          (fuel : ℕ) (c : RouterProtocol) (w : W)
          → c.pack_data_length ≤ limit
          → Bounded (decode_packet sys tls (default_packer d) udp_buffer fuel c w)
      unfolding decode_packet receive_from_udp
      decode_packet-Bounded zero c w k = (tt, k)
      decode_packet-Bounded (suc fuel) c w k =
          let round = decode_round sys tls (default_packer d) udp_buffer c w in
          choose Bounded c.is_udp (after_datagram-Fits (sys.recv_from c.fd udp_buffer w).0, k)
            (then_round-Bounded fuel round (decode_round-Fits c w k)
              (decode_packet-Bounded fuel round.1 round.2))

      -- With a limit, DecodePacket on a connection that waits for no longer a body than the limit
      -- delivers no longer a body, and leaves the connection such, whatever the reads return and however
      -- the call ends.
      pub decode_packet-Limited :
          (fuel : ℕ) (c : RouterProtocol) (w : W)
          → c.pack_data_length ≤ limit
          → Limited (decode_packet sys tls (default_packer d) udp_buffer fuel c w)
      decode_packet-Limited fuel c w k =
          Bounded-Limited (decode_packet sys tls (default_packer d) udp_buffer fuel c w)
            (decode_packet-Bounded fuel c w k)
