-- ===== src/Router/Stream/Delivery.antt =====
-- server/router.go: the packets that calls of DecodePacket deliver from one stream, as the loop of
-- eventloop/epoll.go makes them, one for each readable event until an error closes the connection.
use netman.Common.{
  ℕ, zero, suc, ◌<◌, ◌≡◌, refl, ap, subst, ◌∙◌, inl, inr, true, false, List, Bytes, [], ◌∷◌, ◌++◌,
  length, ◌==◌, if◌then◌else◌, arith, append_assoc, Bool-cases, prove_else, prove_then, if_then,
}
use netman.Errors.{Error, Outcome, nothing, packet, fail, crash, stuck, Flow, exit, go_on}
use netman.Kernel.{Sys}
use netman.Util.Message.{Message}
use netman.Util.DataPack.{DataPacker}
use netman.Connect.{BaseConnect}
use netman.Connect.Tls.{Tls, read_data}
use netman.Router.{RouterProtocol, decode_round, decode_packet}
use netman.Router.Layout.{default_packer}
use netman.Connect.Socket.{SameSocket, SameSocket-trans}
use netman.Router.Stream.{StreamLaws, IsValid, frame, closes, stream, Sound}
use netman.Router.Stream.Rounds.{want}
use netman.Router.Stream.Sound.{decode_packet-Sound, decode_round-Same}

-- How a run of calls ends: the connection is kept, or closed for an error. `broken` is no Go value.
pub data Stop : Type 0 where
  kept : Stop
  closed : Error → Stop
  broken : Stop

abbrev pub Run : Type 0 → Type 0
Run W = List Message × Stop × RouterProtocol × W

abbrev pub deliver : {W : Type 0} → Message → Run W → Run W
deliver m r = (m ∷ r.0, r.1, r.2, r.3)

abbrev pub frames : List Message → Bytes
frames [] = []
frames (m ∷ ms) = frame m ++ frames ms

-- Every message's length is that of its body.
abbrev pub AreWhole : List Message → Type 0
AreWhole [] = Unit {0}
AreWhole (m ∷ ms) = (m.data_len ≡ length m.body) × AreWhole ms

-- Enough fuel for every connection.
abbrev pub enough : ℕ
enough = 4294967297

pub want-enough : (c : RouterProtocol) → IsValid c → want c < enough
want-enough c (inl v) = ground (arith, v.no_packet)
want-enough c (inr (m, v)) = ground (arith, v.wanted, v.u32_len)

-- What follows a call, with the run of the later calls.
abbrev pub then_calls : {W : Type 0} → Outcome Message → RouterProtocol → W → Run W → Run W
then_calls nothing c w later = later
then_calls (packet m) c w later = deliver m later
then_calls (fail e) c w later = if closes e then ([], closed e, c, w) else later
then_calls crash c w later = ([], broken, c, w)
then_calls stuck c w later = ([], broken, c, w)

module _ {W : Type 0} (sys : Sys W) (tls : Tls W) (d : DataPacker) (udp_buffer : ℕ) where
  abbrev pub calls : ℕ → RouterProtocol → W → Run W
  calls zero c w = ([], kept, c, w)
  calls (suc n) c w =
      let (o, c', w') = decode_packet sys tls (default_packer d) udp_buffer enough c w in
      let later = calls n c' w' in then_calls o c' w' later

-- What a run from the stream `s` has delivered: a front of it, and the rest is still to come where
-- the connection is kept.
abbrev pub Delivered : {W : Type 0} → (W → Bytes) → Bytes → Run W → Type 0
Delivered incoming s (ms, kept, c, w) =
    AreWhole ms × IsValid c × (frames ms ++ stream incoming c w ≡ s)
Delivered incoming s (ms, closed e, c, w) =
    AreWhole ms × (closes e ≡ true) × ((rest : Bytes) × (frames ms ++ rest ≡ s))
Delivered incoming s (ms, broken, c, w) = ⊥

Delivered-deliver :
    {W : Type 0} (incoming : W → Bytes) (m : Message) (s s' : Bytes) (r : Run W)
    → m.data_len ≡ length m.body
    → frame m ++ s ≡ s'
    → Delivered incoming s r
    → Delivered incoming s' (deliver m r)
Delivered-deliver incoming m s s' (ms, kept, c, w) len e (whole, v, same) =
    ((len, whole), v, append_assoc (frame m) (frames ms) _ ∙ ap (◌++◌ (frame m)) same ∙ e)
Delivered-deliver incoming m s s' (ms, closed x, c, w) len e (whole, h, (rest, same)) = (
  (len, whole),
  h,
  (rest, append_assoc (frame m) (frames ms) rest ∙ ap (◌++◌ (frame m)) same ∙ e),
)
Delivered-deliver incoming m s s' (ms, broken, c, w) len e h = h

then_calls-Delivered :
    {W : Type 0} (incoming : W → Bytes) (o : Outcome Message) (c c' : RouterProtocol) (w w' : W)
    (later : Run W)
    → Sound incoming c w (o, c', w')
    → (IsValid c' → Delivered incoming (stream incoming c' w') later)
    → Delivered incoming (stream incoming c w) (then_calls o c' w' later)
then_calls-Delivered incoming nothing c c' w w' later (v, same, less) more =
    subst (λ s. Delivered incoming s later) same (more v)
then_calls-Delivered incoming (packet m) c c' w w' later (idle, len, same, less) more =
    let none_held = if_then (c'.pack_data_length == 0) _ _ (ground (arith, idle.no_packet)) in
    Delivered-deliver incoming m (stream incoming c' w') (stream incoming c w) later len
      (ap (λ h. frame m ++ (h ++ incoming w')) none_held ∙ same) (more (inl idle))
then_calls-Delivered incoming (fail e) c c' w w' later sound more = elim (Bool-cases (closes e)) [
  | inl ends ↦
      prove_then (Delivered incoming (stream incoming c w)) (closes e) _ _ ends
        (tt, ends, (stream incoming c w, refl))
  | inr stays ↦
      prove_else (Delivered incoming (stream incoming c w)) (closes e) _ _ stays (elim sound [
        | inl ends ↦ cc
        | inr (v, same) ↦ subst (λ s. Delivered incoming s later) same (more v)
      ])
]
then_calls-Delivered incoming crash c c' w w' later sound more = sound
then_calls-Delivered incoming stuck c c' w w' later sound more = sound

module _ {W : Type 0} (sys : Sys W) (tls : Tls W) (d : DataPacker) (udp_buffer : ℕ)
    (incoming : ℕ → W → Bytes) (laws : StreamLaws (read_data sys tls) incoming) where
  flow-Same :
      (fuel : ℕ) (b : BaseConnect) (r : Flow Message × RouterProtocol × W)
      → SameSocket b r.1.base
      → SameSocket r.1.base
          (decode_packet sys tls (default_packer d) udp_buffer fuel r.1 r.2).1.base
      → SameSocket b
          (elim r.0 as (λ x. Outcome Message × RouterProtocol × W) [
            | exit o ↦ (o, r.1, r.2)
            | go_on ↦ decode_packet sys tls (default_packer d) udp_buffer fuel r.1 r.2
          ]).1.base
  flow-Same fuel b (exit o, c, w) same later = same
  flow-Same fuel b (go_on, c, w) same later = SameSocket-trans same later

  decode_packet-Same :
      (fuel : ℕ) (c : RouterProtocol) (w : W)
      → c.is_udp ≡ false
      → SameSocket c.base (decode_packet sys tls (default_packer d) udp_buffer fuel c w).1.base
  unfolding decode_packet
  decode_packet-Same zero c w tcp = (refl, refl)
  decode_packet-Same (suc fuel) c w tcp =
      let round = decode_round sys tls (default_packer d) udp_buffer c w in
      let same = decode_round-Same sys tls d udp_buffer incoming laws c w in
      prove_else (λ (r : Outcome Message × RouterProtocol × W). SameSocket c.base r.1.base) c.is_udp
        _ _ tcp
        (flow-Same fuel c.base round same (decode_packet-Same fuel round.1 round.2 (same.1 ∙ tcp)))

  -- Any number of calls of DecodePacket on a stream connection, from one between packets or inside
  -- one, until an error that closes it: no call panics, and the packets that they deliver are, in
  -- their order and each with its whole body, a front of the stream at the start; where the
  -- connection is kept, the rest of that stream is what it holds and what is still to come.
  pub calls-Delivered :
      (n : ℕ) (c : RouterProtocol) (w : W)
      → c.is_udp ≡ false
      → IsValid c
      → Delivered (incoming c.fd) (stream (incoming c.fd) c w) (calls sys tls d udp_buffer n c w)
  calls-Delivered zero c w tcp v = (tt, v, refl)
  calls-Delivered (suc n) c w tcp v =
      let (o, c', w') = decode_packet sys tls (default_packer d) udp_buffer enough c w in
      let same = decode_packet-Same enough c w tcp in
      then_calls-Delivered (incoming c.fd) o c c' w w' (calls sys tls d udp_buffer n c' w')
        (decode_packet-Sound sys tls d udp_buffer incoming laws enough c w tcp v (want-enough c v))
        (λ v'.
          subst
            (λ k.
              Delivered (incoming k) (stream (incoming k) c' w')
                (calls sys tls d udp_buffer n c' w'))
            same.0 (calls-Delivered n c' w' (same.1 ∙ tcp) v'))
