-- ===== src/Websocket/Safe/Payload.antt =====
-- server/websocket_frame.go: reading a payload keeps the connection between two frames or inside one,
-- and panics only for a slice that the runtime cannot make.
use netman.Common.{
  ℕ, ◌+◌, ◌-◌, ◌%◌, ◌^◌, ◌≤◌, ◌<◌, ◌≡◌, refl, ap, sym, subst, ◌∙◌, inl, inr, Bool, true, not, ◌&&◌,
  Option, none, some, Bytes, [], ◌++◌, length, ltb, leb, ◌==◌, if◌then◌else◌, arith, choose,
  Bool-cases, prove_then, prove_else, length-append,
}
use netman.Errors.{Error, websocket_must_utf8, Outcome, nothing, packet, fail, crash, stuck}
use netman.Kernel.{Sys}
use netman.Host.{Host}
use netman.Util.Message.{Message}
use netman.Connect.{BaseConnect}
use netman.Connect.Tls.{Tls, read_data}
use netman.Websocket.{WebsocketProtocol, reset, came_short, text_mode, continuation}
use netman.Websocket.Frame.{
  unmask_from, decode_fragment, join_continued, frame_message, after_message, end_message,
  end_frame, after_payload, next_frame,
}
use netman.Websocket.Payload.{length-unmask}
use netman.Websocket.Safe.{InFrame, Holds, IsOpen, Safe}

abbrev pub room : WebsocketProtocol → ℕ
room c = (c.fragment_length + 2 ^ 64 - length c.r_buffer % 2 ^ 64) % 2 ^ 64

room_le : (c : WebsocketProtocol) → InFrame c → length c.r_buffer + room c ≤ c.fragment_length
room_le c (inl empty) = omega (arith, ap length empty)
room_le c (inr (_, inside)) = omega arith

room_some :
    (c : WebsocketProtocol)
    → InFrame c
    → 2 ≤ c.fragment_length
    → c.fragment_length ≤ 125
    → 0 < room c
room_some c (inl empty) h k = omega (arith, ap length empty)
room_some c (inr (_, inside)) h k = omega arith

decode_fragment-length :
    (c : WebsocketProtocol) → length c.r_buffer ≤ length (decode_fragment c).packet_buffer
unfolding decode_fragment
decode_fragment-length c =
    let plain = if length c.masks == 4 then unmask_from 0 c.masks c.r_buffer else c.r_buffer in
    let same : length plain ≡ length c.r_buffer =
      choose (λ (bs : Bytes). length bs ≡ length c.r_buffer) (length c.masks == 4)
        (length-unmask 0 c.masks c.r_buffer) refl in
    omega (arith, length-append c.packet_buffer plain, same)

-- What a frame's payload leads to, as a close frame relies on it: a message, and the packet of a text
-- that is refused, have the code's two bytes at least.
abbrev pub HasCode : Outcome Message → WebsocketProtocol → Type 0
HasCode nothing c = ⊥
HasCode (packet m) c = 2 ≤ length m.body
HasCode (fail e) c = e ≡ websocket_must_utf8 → 2 ≤ length c.packet_buffer
HasCode crash c = Unit {0}
HasCode stuck c = ⊥

-- A connection after a whole frame: no byte of a payload is left, and nothing panicked.
abbrev Ends : WebsocketProtocol → Outcome Message × WebsocketProtocol → Type 0
Ends c (nothing, c') = ⊥
Ends c (packet m, c') =
    (c'.base ≡ c.base) × (c'.r_buffer ≡ []) × (2 ≤ length c.r_buffer → 2 ≤ length m.body)
Ends c (fail e, c') =
    (c'.base ≡ c.base)
    × (c'.r_buffer ≡ [])
    × (2 ≤ length c.r_buffer → e ≡ websocket_must_utf8 → 2 ≤ length c'.packet_buffer)
Ends c (crash, c') = ⊥
Ends c (stuck, c') = ⊥

join_continued-length :
    (op : ℕ) (c : WebsocketProtocol)
    → length c.packet_buffer ≤ length (join_continued op c).packet_buffer
unfolding join_continued
join_continued-length op c =
    choose (λ (c' : WebsocketProtocol). length c.packet_buffer ≤ length c'.packet_buffer)
      (op == continuation && leb 1 (length c.continue_buffer))
      (omega (arith, length-append c.continue_buffer c.packet_buffer)) (omega arith)

join_continued_frame :
    (op : ℕ) (c : WebsocketProtocol)
    → ((join_continued op c).base ≡ c.base) × ((join_continued op c).r_buffer ≡ c.r_buffer)
unfolding join_continued
join_continued_frame op c =
    choose (λ (c' : WebsocketProtocol). (c'.base ≡ c.base) × (c'.r_buffer ≡ c.r_buffer))
      (op == continuation && leb 1 (length c.continue_buffer)) (refl, refl) (refl, refl)

module _ (utf8_valid : Bytes → Bool) where
  end_message-Ends :
      (op : ℕ) (c₀ c : WebsocketProtocol)
      → c.base ≡ c₀.base
      → c.r_buffer ≡ []
      → length c₀.r_buffer ≤ length c.packet_buffer
      → Ends c₀ (end_message utf8_valid op c)
  unfolding end_message frame_message after_message
  end_message-Ends op c₀ c same empty le =
      choose (Ends c₀) (c.message_mode == text_mode && not (utf8_valid c.packet_buffer))
        (same, empty, λ h e. omega arith) (same, empty, λ h. omega arith)

  end_frame-Ends : (c : WebsocketProtocol) → Ends c (end_frame utf8_valid c)
  unfolding end_frame reset decode_fragment
  end_frame-Ends c =
      let c₁ = reset (decode_fragment c) in
      let (same, empty) = join_continued_frame c.opcode c₁ in
      choose (Ends c) (c.final == 1)
        (end_message-Ends c.opcode c (join_continued c.opcode c₁) same empty
          (omega (arith, decode_fragment-length c, join_continued-length c.opcode c₁)))
        (refl, refl, λ h e. cc)

  -- What nextFrame leaves, once the payload was read into `c`.
  abbrev Went : WebsocketProtocol → Outcome Message × WebsocketProtocol → Type 0
  Went c (nothing, c') = (c'.base ≡ c.base) × InFrame c'
  Went c (packet m, c') = (c'.base ≡ c.base) × InFrame c'
  Went c (fail e, c') = (c'.base ≡ c.base) × InFrame c'
  Went c (crash, c') = ⊥
  Went c (stuck, c') = ⊥

  Ends-Went :
      (c c₁ : WebsocketProtocol) (r : Outcome Message × WebsocketProtocol)
      → c₁.base ≡ c.base
      → Ends c₁ r
      → Went c r
  Ends-Went c c₁ (nothing, c') e h = elim h [ ]
  Ends-Went c c₁ (packet m, c') e (same, empty, _) = (same ∙ e, inl empty)
  Ends-Went c c₁ (fail x, c') e (same, empty, _) = (same ∙ e, inl empty)
  Ends-Went c c₁ (crash, c') e h = elim h [ ]
  Ends-Went c c₁ (stuck, c') e h = elim h [ ]

  short-Went :
      (c : WebsocketProtocol) (e : Option Error)
      → InFrame c
      → Went c (elim e as (λ x. Outcome Message) [ none ↦ nothing | some x ↦ fail x ], c)
  short-Went c none v = (refl, v)
  short-Went c (some x) v = (refl, v)

  after_payload-Went :
      (c : WebsocketProtocol) (bs : Bytes) (e : Option Error)
      → InFrame c
      → c.parse_header ≡ true
      → length c.r_buffer + length bs ≤ c.fragment_length
      → Went c (after_payload utf8_valid c bs e)
  unfolding after_payload
  after_payload-Went c bs e v whole le =
      let c₁ : WebsocketProtocol = record c { r_buffer = c.r_buffer ++ bs } in
      choose (Went c) (not (c.fragment_length == 0) && came_short bs e) (short-Went c e v)
        (elim (Bool-cases (length c₁.r_buffer == c.fragment_length)) [
          | inl all ↦
              prove_then (Went c) (length c₁.r_buffer == c.fragment_length) _ _ all
                (Ends-Went c c₁ _ refl (end_frame-Ends c₁))
          | inr some_left ↦
              prove_else (Went c) (length c₁.r_buffer == c.fragment_length) _ _ some_left
                (refl, inr (whole, ground (arith, length-append c.r_buffer bs)))
        ])

  Ends-HasCode :
      (c : WebsocketProtocol) (r : Outcome Message × WebsocketProtocol)
      → 2 ≤ length c.r_buffer
      → Ends c r
      → HasCode r.0 r.1
  Ends-HasCode c (nothing, c') h v = v
  Ends-HasCode c (packet m, c') h v = v.2 h
  Ends-HasCode c (fail e, c') h v = v.2 h
  Ends-HasCode c (crash, c') h v = elim v [ ]
  Ends-HasCode c (stuck, c') h v = v

  short-HasCode :
      (c : WebsocketProtocol) (bs : Bytes) (e : Option Error)
      → (e ≡ none → 0 < length bs)
      → ((x : Error) → e ≡ some x → x ≡ websocket_must_utf8 → ⊥)
      → came_short bs e ≡ true
      → HasCode (elim e as (λ x. Outcome Message) [ none ↦ nothing | some x ↦ fail x ]) c
  short-HasCode c bs none h k short = absurd (ground (arith, h refl))
  short-HasCode c bs (some x) h k short = λ e. absurd (k x refl e)

  after_payload-HasCode :
      (c : WebsocketProtocol) (bs : Bytes) (e : Option Error)
      → 2 ≤ c.fragment_length
      → (e ≡ none → 0 < length bs)
      → ((x : Error) → e ≡ some x → x ≡ websocket_must_utf8 → ⊥)
      → let (o, c') = after_payload utf8_valid c bs e in HasCode o c'
  unfolding after_payload
  after_payload-HasCode c bs e two h k =
      let c₁ : WebsocketProtocol = record c { r_buffer = c.r_buffer ++ bs } in
      let Coded = λ (r : Outcome Message × WebsocketProtocol). HasCode r.0 r.1 in
      elim (Bool-cases (not (c.fragment_length == 0) && came_short bs e)) [
        | inl short ↦
            prove_then Coded (not (c.fragment_length == 0) && came_short bs e) _ _ short
              (short-HasCode c bs e h k (ground arith))
        | inr whole ↦
            prove_else Coded (not (c.fragment_length == 0) && came_short bs e) _ _ whole
              (elim (Bool-cases (length c₁.r_buffer == c.fragment_length)) [
                | inl all ↦
                    prove_then Coded (length c₁.r_buffer == c.fragment_length) _ _ all
                      (Ends-HasCode c₁ _ (ground arith) (end_frame-Ends c₁))
                | inr some_left ↦
                    prove_else Coded (length c₁.r_buffer == c.fragment_length) _ _ some_left
                      (λ e. cc)
              ])
      ]

module _ {W : Type 0} (sys : Sys W) (tls : Tls W) (host : Host W) (utf8_valid : Bytes → Bool)
    (max_slice : ℕ) (Held : BaseConnect → Type 0) (Good : W → Type 0)
    (laws : Holds sys tls host Held Good) where
  Went-Safe :
      (o : Outcome Message) (c c' : WebsocketProtocol) (w : W)
      → Held c.base
      → Good w
      → Went utf8_valid c (o, c')
      → Safe Held Good max_slice (o, c', w)
  Went-Safe nothing c c' w held good (same, v) = (subst Held (sym same) held, v, good)
  Went-Safe (packet m) c c' w held good (same, v) = (subst Held (sym same) held, v, good)
  Went-Safe (fail e) c c' w held good (same, v) = (subst Held (sym same) held, v, good)
  Went-Safe crash c c' w held good h = elim h [ ]
  Went-Safe stuck c c' w held good h = h

  pub next_frame-Safe :
      (c : WebsocketProtocol) (w : W)
      → IsOpen Held Good c w
      → c.parse_header ≡ true
      → Safe Held Good max_slice (next_frame sys tls utf8_valid max_slice c w)
  unfolding next_frame
  next_frame-Safe c w (held, v, good) whole =
      let (bs, e, base', w') = read_data sys tls c.base (room c) w in
      let c₁ : WebsocketProtocol = record c { base = base' } in
      let h = laws.reads c.base (room c) w held good in
      let le = room_le c v in
      elim (Bool-cases (ltb max_slice (room c))) [
        | inl long ↦
            prove_then (Safe Held Good max_slice) (ltb max_slice (room c)) _ _ long
              (ground arith, good)
        | inr fits ↦ prove_else (Safe Held Good max_slice) (ltb max_slice (room c)) _ _ fits (
            Went-Safe _ c₁ _ w' h.0 h.1
              (after_payload-Went utf8_valid c₁ bs e v whole (omega (arith, h.2))))
      ]

  pub next_frame-HasCode :
      (c : WebsocketProtocol) (w : W)
      → IsOpen Held Good c w
      → 2 ≤ c.fragment_length
      → c.fragment_length ≤ 125
      → let (o, c', w') = next_frame sys tls utf8_valid max_slice c w in HasCode o c'
  unfolding next_frame
  next_frame-HasCode c w (held, v, good) two small =
      let (bs, e, base', w') = read_data sys tls c.base (room c) w in
      let c₁ : WebsocketProtocol = record c { base = base' } in
      let h = laws.reads c.base (room c) w held good in
      choose (λ (r : Outcome Message × WebsocketProtocol × W). HasCode r.0 r.1)
        (ltb max_slice (room c)) tt
        (after_payload-HasCode utf8_valid c₁ bs e two (h.3 (room_some c v two small)) h.4)
