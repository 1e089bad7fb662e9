-- ===== src/Router/Stream/Ends.antt =====
-- server/router.go, DecodePacket: it stops calling itself.
use netman.Common.{
  ℕ, zero, suc, ◌<◌, ◌≡◌, refl, ◌∙◌, sym, subst, true, false, arith, if_then, if_else, Bool-cases,
  choose, inl, inr,
}
use netman.Errors.{Result, ok, err, Outcome, nothing, packet, fail, crash, stuck, Flow, exit, go_on}
use netman.Kernel.{Sys, RecvResult, datagram, recv_failed}
use netman.Util.Message
use netman.Util.Message.{Message}
use netman.Util.DataPack.{DataPacker}
use netman.Connect.Tls.{Tls, read_data}
use netman.Common.{Bytes, length, ltb, ◌-◌, take}
use netman.Router.{
  RouterProtocol, fill_from, after_datagram, receive_from_udp, decode_round, decode_packet,
}
use netman.Router.Layout.{Packer, default_packer}
use netman.Router.Stream.{StreamLaws, IsValid, Sound}
use netman.Router.Stream.Rounds.{RoundSound, want}
use netman.Router.Stream.Sound.{decode_round-Same, decode_round-RoundSound, decode_packet-Sound}

-- A result that the fuel did not cut, and that is no panic.
abbrev pub Ends : Outcome Message → Type 0
Ends nothing = Unit {0}
Ends (packet m) = Unit {0}
Ends (fail e) = Unit {0}
Ends crash = ⊥
Ends stuck = ⊥

fill_from-Ends : (p : Packer) (bs : Bytes) (r : Result Message) → Ends (fill_from p bs r)
unfolding fill_from
fill_from-Ends p bs (err e) = tt
fill_from-Ends p bs (ok m) = choose Ends (ltb (length bs - p.header_length) (Message.len m)) tt tt

after_datagram-Ends : (p : Packer) (r : RecvResult) → Ends (after_datagram p r)
unfolding after_datagram
after_datagram-Ends p (recv_failed e) = tt
after_datagram-Ends p (datagram bs) =
    choose Ends (ltb (length bs) p.header_length) tt
      (fill_from-Ends p bs (p.unpack (take p.header_length bs)))

module _ {W : Type 0} (sys : Sys W) (tls : Tls W) (d : DataPacker) (udp_buffer : ℕ) where
  abbrev pub decoding : ℕ → RouterProtocol → W → Outcome Message × RouterProtocol × W
  decoding fuel c w = decode_packet sys tls (default_packer d) udp_buffer fuel c w

  pub on_udp :
      (fuel : ℕ) (c : RouterProtocol) (w : W)
      → c.is_udp ≡ true
      → 0 < fuel
      → decoding fuel c w ≡ receive_from_udp sys tls (default_packer d) udp_buffer c w
  unfolding decode_packet
  on_udp zero c w udp h = absurd (omega arith)
  on_udp (suc fuel) c w udp h = if_then c.is_udp _ _ udp

  pub received-Ends :
      (c : RouterProtocol) (w : W)
      → Ends (receive_from_udp sys tls (default_packer d) udp_buffer c w).0
  unfolding receive_from_udp
  received-Ends c w = after_datagram-Ends (default_packer d) (sys.recv_from c.fd udp_buffer w).0

module _ {W : Type 0} (sys : Sys W) (tls : Tls W) (d : DataPacker) (udp_buffer : ℕ)
    (incoming : ℕ → W → Bytes) (laws : StreamLaws (read_data sys tls) incoming) where
  abbrev calls : ℕ → RouterProtocol → W → Outcome Message × RouterProtocol × W
  calls fuel c w = decoding sys tls d udp_buffer fuel c w

  Sound-Ends :
      (c : RouterProtocol) (w : W) (r : Outcome Message × RouterProtocol × W)
      → Sound (incoming c.fd) c w r
      → Ends r.0
  Sound-Ends c w (nothing, c', w') s = tt
  Sound-Ends c w (packet m, c', w') s = tt
  Sound-Ends c w (fail e, c', w') s = tt
  Sound-Ends c w (crash, c', w') s = s
  Sound-Ends c w (stuck, c', w') s = s

  after_round-same :
      (fuel more : ℕ) (c : RouterProtocol) (w : W) (r : Flow Message × RouterProtocol × W)
      → RoundSound (incoming c.fd) c w r
      → (IsValid r.1 → want r.1 < want c → calls more r.1 r.2 ≡ calls fuel r.1 r.2)
      → (elim r.0 as (λ x. Outcome Message × RouterProtocol × W) [
        | exit o ↦ (o, r.1, r.2)
        | go_on ↦ calls more r.1 r.2
      ])
        ≡ elim r.0 as (λ x. Outcome Message × RouterProtocol × W) [
          | exit o ↦ (o, r.1, r.2)
          | go_on ↦ calls fuel r.1 r.2
        ]
  after_round-same fuel more c w (exit o, c', w') s later = refl
  after_round-same fuel more c w (go_on, c', w') (v, same, less, falls) later = later (inr v) falls

  any_fuel :
      (fuel more : ℕ) (c : RouterProtocol) (w : W)
      → c.is_udp ≡ false
      → IsValid c
      → want c < fuel
      → want c < more
      → calls more c w ≡ calls fuel c w
  unfolding decode_packet
  any_fuel zero more c w tcp v h k = absurd (omega arith)
  any_fuel (suc fuel) zero c w tcp v h k = absurd (omega arith)
  any_fuel (suc fuel) (suc more) c w tcp v h k =
      let round = decode_round sys tls (default_packer d) udp_buffer c w in
      let same = decode_round-Same sys tls d udp_buffer incoming laws c w in
      if_else c.is_udp _ _ tcp
      ∙ after_round-same fuel more c w round
          (decode_round-RoundSound sys tls d udp_buffer incoming laws c w v)
          (λ v' less.
            any_fuel fuel more round.1 round.2 (same.1 ∙ tcp) v' (omega arith) (omega arith))
      ∙ sym (if_else c.is_udp _ _ tcp)

  -- DecodePacket of a connection that is between packets or inside one ends: where its calls of itself
  -- may be more in number than the bytes that the packet still wants, it returns, without a panic, and
  -- a larger bound on them changes neither its result nor the state after it.
  pub decode_packet-Ends :
      (fuel more : ℕ) (c : RouterProtocol) (w : W)
      → IsValid c
      → want c < fuel
      → want c < more
      → Ends (calls fuel c w).0 × (calls more c w ≡ calls fuel c w)
  decode_packet-Ends fuel more c w v h k = elim (Bool-cases c.is_udp) [
    | inl udp ↦
        let once = on_udp sys tls d udp_buffer fuel c w udp (omega arith) in
        (
          subst (λ (r : Outcome Message × RouterProtocol × W). Ends r.0) (sym once)
              (received-Ends sys tls d udp_buffer c w),
          on_udp sys tls d udp_buffer more c w udp (omega arith) ∙ sym once,
        )
    | inr tcp ↦ (
      Sound-Ends c w (calls fuel c w)
          (decode_packet-Sound sys tls d udp_buffer incoming laws fuel c w tcp v h),
      any_fuel fuel more c w tcp v h k,
    )
  ]
