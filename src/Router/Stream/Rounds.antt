-- ===== src/Router/Stream/Rounds.antt =====
-- server/router.go, DecodePacket: what the phases make of the stream.
use netman.Common.{
  ℕ, ◌-◌, ◌≤◌, ◌<◌, ◌≡◌, refl, sym, ap, ◌∙◌, inl, inr, Bool, true, false, Bytes, [], ◌++◌, length,
  ◌==◌, if◌then◌else◌, arith, append-nil, append_assoc, length-append,
}
use netman.Errors.{Outcome, nothing, packet, fail, crash, stuck, Flow, exit, go_on}
use netman.Util.Message.{Message}
use netman.Router.{RouterProtocol}
use netman.Router.Stream.{IsIdle, IsPartial, head_bytes, held, stream, Sound}
use netman.Router.Stream.Head.{HeadSound}
use netman.Router.Stream.Body.{BodySound}

pub held-idle : (c : RouterProtocol) → IsIdle c → held c ≡ []
held-idle c v = rw v.no_packet

pub held-partial :
    (c : RouterProtocol) (m : Message) → IsPartial c m → held c ≡ head_bytes m ++ c.read_buffer
held-partial c m v = ground (arith, v.short, v.at)

-- How many bytes a packet may still want.
abbrev pub want : RouterProtocol → ℕ
want c = if c.pack_data_length == 0 then 4294967296 else c.pack_data_length - length c.read_buffer

-- What a round may return.
abbrev pub RoundSound :
    {W : Type 0} → (W → Bytes) → RouterProtocol → W → Flow Message × RouterProtocol × W → Type 0
RoundSound incoming c w (exit o, c', w') = Sound incoming c w (o, c', w')
RoundSound incoming c w (go_on, c', w') =
    ((m : Message) × IsPartial c' m)
    × (stream incoming c' w' ≡ stream incoming c w)
    × (length (incoming w') < length (incoming w))
    × (want c' < want c)

abbrev pub fails : Flow Message → Bool
fails (exit (fail e)) = true
fails (exit nothing) = false
fails (exit (packet m)) = false
fails (exit crash) = false
fails (exit stuck) = false
fails go_on = false

module _ {W : Type 0} (incoming : W → Bytes) where
  joined :
      (c c' : RouterProtocol) (m : Message) (w w' : W) (bs : Bytes)
      → IsPartial c m
      → IsPartial c' m
      → c'.read_buffer ≡ c.read_buffer ++ bs
      → incoming w ≡ bs ++ incoming w'
      → stream incoming c' w' ≡ stream incoming c w
  joined c c' m w w' bs v v' buf took =
      rw (held-partial c' m v', held-partial c m v, buf, took) (simp append_assoc)

  shorter :
      (w w' : W) (bs : Bytes)
      → incoming w ≡ bs ++ incoming w'
      → 0 < length bs
      → length (incoming w') < length (incoming w)
  shorter w w' bs took h = omega (arith, ap length took, length-append bs (incoming w'))

  want_falls :
      (c c' : RouterProtocol) (m : Message) (bs : Bytes)
      → IsPartial c m
      → IsPartial c' m
      → c'.read_buffer ≡ c.read_buffer ++ bs
      → 0 < length bs
      → want c' < want c
  want_falls c c' m bs v v' buf h =
      ground (
        arith,
        v.wanted,
        v'.wanted,
        v.short,
        v'.short,
        ap length buf,
        length-append c.read_buffer bs,
      )

  pub body_case :
      (c : RouterProtocol) (m : Message) (w w' : W) (bs : Bytes) (r : Flow Message × RouterProtocol)
      → IsPartial c m
      → incoming w ≡ bs ++ incoming w'
      → (fails r.0 ≡ false → 0 < length bs)
      → BodySound m c.read_buffer bs r
      → RoundSound incoming c w (r.0, r.1, w')
  body_case c m w w' bs (go_on, c') v took came (v', buf) = (
    (m, v'),
    joined c c' m w w' bs v v' buf took,
    shorter w w' bs took (came refl),
    want_falls c c' m bs v v' buf (came refl),
  )
  body_case c m w w' bs (exit nothing, c') v took came (v', buf) =
      (inr (m, v'), joined c c' m w w' bs v v' buf took, shorter w w' bs took (came refl))
  body_case c m w w' bs (exit (packet m'), c') v took came (v', len, whole) = (
    v',
    len,
    rw (held-partial c m v, whole, took) (simp append_assoc),
    shorter w w' bs took (came refl),
  )
  body_case c m w w' bs (exit (fail e), c') v took came (inl closing) = inl closing
  body_case c m w w' bs (exit (fail e), c') v took came (inr (v', none_came, buf)) =
      inr (
        inr (m, v'),
        joined c c' m w w' bs v v' (rw (none_came, append-nil c.read_buffer) buf) took,
      )
  body_case c m w w' bs (exit crash, c') v took came s = s
  body_case c m w w' bs (exit stuck, c') v took came s = s

  pub Sound-from :
      (c c₁ : RouterProtocol) (w w₁ : W) (r : Outcome Message × RouterProtocol × W)
      → stream incoming c₁ w₁ ≡ stream incoming c w
      → length (incoming w₁) < length (incoming w)
      → Sound incoming c₁ w₁ r
      → Sound incoming c w r
  Sound-from c c₁ w w₁ (nothing, c', w') same less (v, s, l) = (v, s ∙ same, omega arith)
  Sound-from c c₁ w w₁ (packet m, c', w') same less (v, n, s, l) = (v, n, s ∙ same, omega arith)
  Sound-from c c₁ w w₁ (fail e, c', w') same less (inl closing) = inl closing
  Sound-from c c₁ w w₁ (fail e, c', w') same less (inr (v, s)) = inr (v, s ∙ same)
  Sound-from c c₁ w w₁ (crash, c', w') same less s = s
  Sound-from c c₁ w w₁ (stuck, c', w') same less s = s

  pub head_case :
      (c : RouterProtocol) (w w' : W) (bs : Bytes) (r : Flow Message × RouterProtocol)
      → IsIdle c
      → incoming w ≡ bs ++ incoming w'
      → (fails r.0 ≡ false → 0 < length bs)
      → length bs ≤ 8
      → HeadSound bs r
      → RoundSound incoming c w (r.0, r.1, w')
  head_case c w w' bs (go_on, c') v took came le (m, v', buf, whole) = (
    (m, v'),
    rw (held-partial c' m v', buf, append-nil (head_bytes m), whole, held-idle c v) (sym took),
    shorter w w' bs took (came refl),
    ground (arith, v.no_packet, v'.wanted, v'.u32_len, v'.short),
  )
  head_case c w w' bs (exit (packet m), c') v took came le (v', len, whole) =
      (v', len, rw (held-idle c v, whole) (sym took), shorter w w' bs took (came refl))
  head_case c w w' bs (exit (fail e), c') v took came le (inl closing) = inl closing
  head_case c w w' bs (exit (fail e), c') v took came le (inr (v', none_came)) =
      inr (inl v', rw (held-idle c' v', held-idle c v, took, none_came))
  head_case c w w' bs (exit nothing, c') v took came le s = absurd s
  head_case c w w' bs (exit crash, c') v took came le s = s
  head_case c w w' bs (exit stuck, c') v took came le s = s

  -- A round that goes on counts from where it started.
  pub RoundSound-from :
      (c c₁ : RouterProtocol) (w w₁ : W) (r : Flow Message × RouterProtocol × W)
      → stream incoming c₁ w₁ ≡ stream incoming c w
      → length (incoming w₁) < length (incoming w)
      → want c₁ < want c
      → RoundSound incoming c₁ w₁ r
      → RoundSound incoming c w r
  RoundSound-from c c₁ w w₁ (go_on, c', w') same less falls (v, s, l, h) =
      (v, s ∙ same, omega arith, omega arith)
  RoundSound-from c c₁ w w₁ (exit o, c', w') same less falls s =
      Sound-from c c₁ w w₁ (o, c', w') same less s
