-- ===== src/Router/Stream/Body.antt =====
-- server/router.go, DecodePacket: the body.
use netman.Common.{
  ◌-◌, ◌%◌, ◌≤◌, ◌<◌, ◌≡◌, refl, ap, ◌∙◌, ◌⊎◌, inl, inr, true, false, Option, none, some, Bytes, [],
  ◌++◌, length, ◌==◌, ◌&&◌, arith, Bool-cases, length-append,
}
use netman.Common.Endian.{IsU32, u32_le}
use netman.Errors.{Error, nothing, packet, fail, crash, stuck, Flow, exit, go_on, is_eof, is_gone}
use netman.Util.Message.{Message, set_data}
use netman.Router.{
  RouterProtocol, read_size, complete, keep_read, tls_holds_rest, finish_round, after_body,
}
use netman.Router.Stream.{IsIdle, IsPartial, frame, head_bytes, closes}
use netman.Router.Stream.Head.{closes_eof}

-- A body is read up to its end at most, and under TLS a record at most.
pub read_size_bounds :
    (c : RouterProtocol) {m : Message}
    → IsPartial c m
    → (0 < read_size c) × (read_size c ≤ c.pack_data_length - length c.read_buffer)
unfolding read_size
read_size_bounds c v = ground arith

-- What the body phase may return after it read `bs` behind the bytes `buf`.
abbrev pub BodySound : Message → Bytes → Bytes → Flow Message × RouterProtocol → Type 0
BodySound m buf bs (go_on, c') = IsPartial c' m × (c'.read_buffer ≡ buf ++ bs)
BodySound m buf bs (exit nothing, c') = IsPartial c' m × (c'.read_buffer ≡ buf ++ bs)
BodySound m buf bs (exit (packet m'), c') =
    IsIdle c' × (m'.data_len ≡ length m'.body) × (frame m' ≡ head_bytes m ++ (buf ++ bs))
BodySound m buf bs (exit (fail e), c') =
    (closes e ≡ true) ⊎ (IsPartial c' m × (bs ≡ []) × (c'.read_buffer ≡ buf))
BodySound m buf bs (exit crash, c') = ⊥
BodySound m buf bs (exit stuck, c') = ⊥

complete-Sound :
    (c : RouterProtocol) (m : Message) (buf bs : Bytes)
    → c.temporary_message ≡ some m
    → c.read_buffer ≡ buf ++ bs
    → length c.read_buffer ≡ m.data_len
    → IsU32 m.data_len
    → BodySound m buf bs (complete c c.temporary_message)
unfolding complete set_data
complete-Sound c m buf bs at is_buf full u32 =
    let n' : length c.read_buffer % 4294967296 ≡ m.data_len = omega arith in
    rw at (
      record { no_packet = refl; no_bytes = refl },
      omega arith,
      ap (λ n. (u32_le n ++ u32_le m.msg_id) ++ c.read_buffer) n' ∙ ap (◌++◌ (head_bytes m)) is_buf,
    )

finish_round-Sound :
    (c : RouterProtocol) (m : Message) (buf bs : Bytes)
    → c.temporary_message ≡ some m
    → c.read_buffer ≡ buf ++ bs
    → c.pack_data_length ≡ m.data_len
    → IsU32 m.data_len
    → IsU32 m.msg_id
    → length c.read_buffer ≤ c.pack_data_length
    → BodySound m buf bs (finish_round c)
unfolding finish_round
finish_round-Sound c m buf bs at is_buf wanted u32 u32' le =
    elim (Bool-cases (length c.read_buffer == c.pack_data_length)) [
      | inl full ↦ rw full (complete-Sound c m buf bs at is_buf (ground arith) u32)
      | inr part ↦
          let v : IsPartial c m = record {
            at = at;
            wanted = wanted;
            u32_len = u32;
            u32_id = u32';
            short = ground arith;
          } in
          rw part (elim (Bool-cases (tls_holds_rest c)) [
            | inl more ↦ rw more (v, is_buf)
            | inr wait ↦ rw wait (v, is_buf)
          ])
    ]

pub after_body-Sound :
    (c : RouterProtocol) (m : Message) (bs : Bytes) (e : Option Error)
    → IsPartial c m
    → length bs ≤ c.pack_data_length - length c.read_buffer
    → ((x : Error) → e ≡ some x → is_eof x ≡ false → bs ≡ [])
    → BodySound m c.read_buffer bs (after_body c bs e)
unfolding after_body keep_read
after_body-Sound c m bs none v le he =
    finish_round-Sound (keep_read c bs) m c.read_buffer bs v.at refl v.wanted v.u32_len v.u32_id
      (rw (length-append c.read_buffer bs) (omega (arith, v.short)))
after_body-Sound c m bs (some x) v le he = elim (Bool-cases (length bs == 0 && is_eof x)) [
  | inl end ↦ rw end (inl (ground (arith, closes_eof x)))
  | inr open_ ↦ rw open_ (elim (Bool-cases (is_gone x)) [
    | inl gone ↦ rw gone (inl refl)
    | inr there ↦ rw there (elim (Bool-cases (is_eof x)) [
      | inl end ↦ inl (closes_eof x end)
      | inr other ↦ let none_came = he x refl other in rw none_came (inr (v, refl, refl))
    ])
  ])
]
