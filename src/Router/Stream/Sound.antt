-- ===== src/Router/Stream/Sound.antt =====
-- server/router.go, DecodePacket on a stream: it cuts the stream into the packets that are on it,
-- however the bytes arrive, and it ends.
use netman.Common.{
  ℕ, zero, suc, ◌<◌, ◌≡◌, refl, subst, ◌∙◌, inl, inr, true, false, Option, none, some, Bytes,
  length, ◌==◌, arith, Bool-cases, prove_else,
}
use netman.Errors.{Error, Flow, exit, go_on}
use netman.Kernel.{Sys}
use netman.Util.Message.{Message}
use netman.Util.DataPack.{DataPacker, get_header_length}
use netman.Connect.Tls.{Tls, read_data}
use netman.Router.{
  RouterProtocol, read_size, complete, keep_read, finish_round, begin, after_head, after_body,
  decode_head, decode_body, then_body, decode_round, decode_packet,
}
use netman.Router.Layout.{Packer, default_packer}
use netman.Connect.Socket.{SameSocket, SameSocket-trans}
use netman.Router.Stream.{StreamLaws, IsIdle, IsPartial, IsValid, Sound}
use netman.Router.Stream.Head.{after_head-Sound}
use netman.Router.Stream.Body.{after_body-Sound, read_size_bounds}
use netman.Router.Stream.Rounds.{
  RoundSound, want, fails, head_case, body_case, RoundSound-from, Sound-from,
}

after_body-fails :
    (c : RouterProtocol) (bs : Bytes) (x : Error) → fails (after_body c bs (some x)).0 ≡ true
unfolding after_body
after_body-fails c bs x = ground arith

after_head-fails :
    (p : Packer) (c : RouterProtocol) (bs : Bytes) (x : Error)
    → fails (after_head p c bs (some x)).0 ≡ true
unfolding after_head
after_head-fails p c bs x = ground arith

body_came :
    (c : RouterProtocol) (bs : Bytes) (e : Option Error)
    → (e ≡ none → 0 < length bs)
    → fails (after_body c bs e).0 ≡ false
    → 0 < length bs
body_came c bs none h k = h refl
body_came c bs (some x) h k = cc (after_body-fails c bs x)

head_came :
    (p : Packer) (c : RouterProtocol) (bs : Bytes) (e : Option Error)
    → (e ≡ none → 0 < length bs)
    → fails (after_head p c bs e).0 ≡ false
    → 0 < length bs
head_came p c bs none h k = h refl
head_came p c bs (some x) h k = cc (after_head-fails p c bs x)

after_body-Same :
    (c : RouterProtocol) (bs : Bytes) (e : Option Error)
    → SameSocket c.base (after_body c bs e).1.base
unfolding after_body keep_read finish_round complete
after_body-Same c bs none = (ground arith, ground arith)
after_body-Same c bs (some x) = (ground arith, ground arith)

after_head-Same :
    (p : Packer) (c : RouterProtocol) (bs : Bytes) (e : Option Error)
    → SameSocket c.base (after_head p c bs e).1.base
unfolding after_head begin
after_head-Same p c bs none = (ground arith, ground arith)
after_head-Same p c bs (some x) = (ground arith, ground arith)

module _ {W : Type 0} (sys : Sys W) (tls : Tls W) (d : DataPacker) (udp_buffer : ℕ)
    (incoming : ℕ → W → Bytes) (laws : StreamLaws (read_data sys tls) incoming) where
  decode_body-Same :
      (c : RouterProtocol) (w : W)
      → SameSocket c.base (decode_body sys tls (default_packer d) udp_buffer c w).1.base
  unfolding decode_body
  decode_body-Same c w =
      let (bs, e, base', w') = read_data sys tls c.base (read_size c) w in
      SameSocket-trans (laws.keeps_socket c.base (read_size c) w)
        (after_body-Same (record c { base = base' }) bs e)

  decode_head-Same :
      (c : RouterProtocol) (w : W)
      → SameSocket c.base (decode_head sys tls (default_packer d) udp_buffer c w).1.base
  unfolding decode_head get_header_length
  decode_head-Same c w =
      let (bs, e, base', w') = read_data sys tls c.base 8 w in
      let same =
        SameSocket-trans (laws.keeps_socket c.base 8 w)
          (after_head-Same (default_packer d) (record c { base = base' }) bs e) in
      elim (Bool-cases (c.pack_data_length == 0)) [
        | inl at_head ↦ rw at_head same
        | inr inside ↦ rw inside (refl, refl)
      ]

  then_body-Same :
      (flow : Flow Message) (c : RouterProtocol) (w : W)
      → SameSocket c.base (then_body sys tls (default_packer d) udp_buffer flow c w).1.base
  unfolding then_body
  then_body-Same (exit o) c w = (refl, refl)
  then_body-Same go_on c w = decode_body-Same c w

  pub decode_round-Same :
      (c : RouterProtocol) (w : W)
      → SameSocket c.base (decode_round sys tls (default_packer d) udp_buffer c w).1.base
  unfolding decode_round
  decode_round-Same c w = SameSocket-trans (decode_head-Same c w) (then_body-Same _ _ _)

  decode_body-RoundSound :
      (c : RouterProtocol) (m : Message) (w : W)
      → IsPartial c m
      → RoundSound (incoming c.fd) c w (decode_body sys tls (default_packer d) udp_buffer c w)
  unfolding decode_body
  decode_body-RoundSound c m w v =
      let (some_size, le_size) = read_size_bounds c v in
      let (bs, e, base', w') = read_data sys tls c.base (read_size c) w in
      let c₁ : RouterProtocol = record c { base = base' } in
      let v₁ : IsPartial c₁ m = record {
        at = v.at;
        wanted = v.wanted;
        u32_len = v.u32_len;
        u32_id = v.u32_id;
        short = v.short;
      } in
      body_case (incoming c.fd) c m w w' bs (after_body c₁ bs e) v
        (laws.takes c.base (read_size c) w)
        (body_came c₁ bs e (laws.some_bytes c.base (read_size c) w some_size))
        (after_body-Sound c₁ m bs e v₁ (omega (arith, laws.fits c.base (read_size c) w))
          (laws.failed_empty c.base (read_size c) w))

  then_body-RoundSound :
      (flow : Flow Message) (c c₁ : RouterProtocol) (w w₁ : W)
      → SameSocket c.base c₁.base
      → RoundSound (incoming c.fd) c w (flow, c₁, w₁)
      → RoundSound (incoming c.fd) c w (then_body sys tls (default_packer d) udp_buffer flow c₁ w₁)
  unfolding then_body
  then_body-RoundSound (exit o) c c₁ w w₁ at s = s
  then_body-RoundSound go_on c c₁ w w₁ at ((m, v₁), same, less, want_less) =
      RoundSound-from (incoming c.fd) c c₁ w w₁ _ same less want_less (
        subst
          (λ k.
            RoundSound (incoming k) c₁ w₁ (decode_body sys tls (default_packer d) udp_buffer c₁ w₁))
          at.0 (decode_body-RoundSound c₁ m w₁ v₁))

  decode_head-RoundSound :
      (c : RouterProtocol) (w : W)
      → IsIdle c
      → RoundSound (incoming c.fd) c w (decode_head sys tls (default_packer d) udp_buffer c w)
  unfolding decode_head get_header_length
  decode_head-RoundSound c w v =
      let (bs, e, base', w') = read_data sys tls c.base 8 w in
      let c₁ : RouterProtocol = record c { base = base' } in
      let v₁ : IsIdle c₁ = record { no_packet = v.no_packet; no_bytes = v.no_bytes } in
      let at_head : (c.pack_data_length == 0) ≡ true = ground (arith, v.no_packet) in
      rw at_head (
        head_case (incoming c.fd) c w w' bs (after_head (default_packer d) c₁ bs e) v
          (laws.takes c.base 8 w)
          (head_came (default_packer d) c₁ bs e (laws.some_bytes c.base 8 w (omega arith)))
          (laws.fits c.base 8 w)
          (after_head-Sound d c₁ bs e v₁ (laws.are_bytes c.base 8 w)
            (laws.failed_empty c.base 8 w)))

  decode_head_partial :
      (c : RouterProtocol) (m : Message) (w : W)
      → IsPartial c m
      → decode_head sys tls (default_packer d) udp_buffer c w ≡ (go_on, c, w)
  unfolding decode_head
  decode_head_partial c m w v =
      let inside : (c.pack_data_length == 0) ≡ false = ground (arith, v.short) in rw inside

  pub decode_round-RoundSound :
      (c : RouterProtocol) (w : W)
      → IsValid c
      → RoundSound (incoming c.fd) c w (decode_round sys tls (default_packer d) udp_buffer c w)
  unfolding decode_round
  decode_round-RoundSound c w (inl v) =
      then_body-RoundSound _ c _ w _ (decode_head-Same c w) (decode_head-RoundSound c w v)
  decode_round-RoundSound c w (inr (m, v)) =
      rw (decode_head_partial c m w v) (decode_body-RoundSound c m w v)

  after_round :
      (fuel : ℕ) (c : RouterProtocol) (w : W) (r : Flow Message × RouterProtocol × W)
      → RoundSound (incoming c.fd) c w r
      → (IsValid r.1
          → want r.1 < want c
          → Sound
              (incoming c.fd)
              r.1
              r.2
              (decode_packet sys tls (default_packer d) udp_buffer fuel r.1 r.2))
      → Sound (incoming c.fd) c w (elim r.0 [
        | exit o ↦ (o, r.1, r.2)
        | go_on ↦ decode_packet sys tls (default_packer d) udp_buffer fuel r.1 r.2
      ])
  after_round fuel c w (exit o, c', w') s more = s
  after_round fuel c w (go_on, c', w') (v, same, less, falls) more =
      Sound-from (incoming c.fd) c c' w w' _ same less (more (inr v) falls)

  -- From a connection between packets or inside one, DecodePacket on a stream, with fuel above the
  -- bytes that the packet may still want, returns. When it returns a packet, that packet is the next
  -- one on the stream and the rest is as it was; when it returns none, or an error that keeps the
  -- connection, no byte of the stream is lost; and without an error it has read a byte at least.
  pub decode_packet-Sound :
      (fuel : ℕ) (c : RouterProtocol) (w : W)
      → c.is_udp ≡ false
      → IsValid c
      → want c < fuel
      → Sound (incoming c.fd) c w (decode_packet sys tls (default_packer d) udp_buffer fuel c w)
  unfolding decode_packet
  decode_packet-Sound zero c w tcp v h = absurd (omega arith)
  decode_packet-Sound (suc fuel) c w tcp v h =
      let round = decode_round sys tls (default_packer d) udp_buffer c w in
      let same = decode_round-Same c w in
      prove_else (Sound (incoming c.fd) c w) c.is_udp _ _ tcp (
        after_round fuel c w round (decode_round-RoundSound c w v) (λ v' less.
          subst
            (λ k.
              Sound (incoming k) round.1 round.2
                (decode_packet sys tls (default_packer d) udp_buffer fuel round.1 round.2))
            same.0 (decode_packet-Sound fuel round.1 round.2 (same.1 ∙ tcp) v' (omega arith))))
