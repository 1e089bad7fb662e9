-- ===== src/Router/Stream/Head.antt =====
-- server/router.go, DecodePacket: the header.
use netman.Common.{
  ℕ, ◌%◌, ◌≡◌, refl, sym, ◌∙◌, ◌⊎◌, inl, inr, true, false, Option, none, some, Bytes, [], ◌++◌,
  length, All, ◌==◌, ◌&&◌, arith, Bool-cases, append-nil,
}
use netman.Common.Endian.{IsByte, IsU32, u32_le}
use netman.Errors.{
  Error, ok, eof, nothing, packet, fail, crash, stuck, Flow, exit, go_on, is_eof, is_gone,
}
use netman.Util.Message.{Message}
use netman.Util.DataPack.{DataPacker, unpack, get_header_length}
use netman.Util.DataPack.RoundTrip.{unpack_total, header}
use netman.Router.{RouterProtocol, begin, after_head}
use netman.Router.Layout.{default_packer}
use netman.Router.Stream.{IsIdle, IsPartial, frame, head_bytes, closes}

-- What the header phase may return after it read `bs`.
abbrev pub HeadSound : Bytes → Flow Message × RouterProtocol → Type 0
HeadSound bs (go_on, c') =
    (m : Message) × IsPartial c' m × (c'.read_buffer ≡ []) × (head_bytes m ≡ bs)
HeadSound bs (exit (packet m), c') = IsIdle c' × (m.data_len ≡ length m.body) × (frame m ≡ bs)
HeadSound bs (exit (fail e), c') = (closes e ≡ true) ⊎ (IsIdle c' × (bs ≡ []))
HeadSound bs (exit nothing, c') = ⊥
HeadSound bs (exit crash, c') = ⊥
HeadSound bs (exit stuck, c') = ⊥

pub closes_eof : (x : Error) → is_eof x ≡ true → closes x ≡ true
closes_eof eof h = refl
closes_eof _ h = cc

module _ (d : DataPacker) where
  begin-Sound :
      (c : RouterProtocol) (n i : ℕ) (bs : Bytes)
      → IsIdle c
      → IsU32 n
      → IsU32 i
      → bs ≡ u32_le n ++ u32_le i
      → HeadSound bs (begin (default_packer d) c (ok (header n i)))
  unfolding begin
  begin-Sound c n i bs v hn hi e = elim (Bool-cases (n == 0)) [
    | inl zero_len ↦ let n0 : n ≡ 0 = ground arith in rw zero_len (v, n0, append-nil _ ∙ sym e)
    | inr body_follows ↦
        let n' : n % 4294967296 ≡ n = omega arith in
        rw body_follows (
          header n i,
          record {
            at = refl;
            wanted = n';
            u32_len = hn;
            u32_id = hi;
            short = rw (v.no_bytes, n') (ground arith);
          },
          v.no_bytes,
          sym e,
        )
  ]

  full_head-Sound :
      (c : RouterProtocol) (bs : Bytes)
      → IsIdle c
      → All IsByte bs
      → length bs ≡ 8
      → HeadSound bs (begin (default_packer d) c (unpack d bs))
  unfolding begin
  full_head-Sound c bs v hb h = elim (unpack_total d bs h hb) [
    | inl (n, _, _, _, refused) ↦ rw (refused, begin) (inl refl)
    | inr (n, i, hn, hi, _, read, e) ↦ rw read (begin-Sound c n i bs v hn hi e)
  ]

  pub after_head-Sound :
      (c : RouterProtocol) (bs : Bytes) (e : Option Error)
      → IsIdle c
      → All IsByte bs
      → ((x : Error) → e ≡ some x → is_eof x ≡ false → bs ≡ [])
      → HeadSound bs (after_head (default_packer d) c bs e)
  unfolding after_head get_header_length
  after_head-Sound c bs none v hb he = elim (Bool-cases (length bs == 8)) [
    | inl whole ↦ rw whole (full_head-Sound c bs v hb (ground arith))
    | inr cut ↦ rw cut (inl refl)
  ]
  after_head-Sound c bs (some x) v hb he = elim (Bool-cases (length bs == 0 && is_eof x)) [
    | inl end ↦ rw end (inl refl)
    | inr open_ ↦ rw open_ (elim (Bool-cases (is_gone x)) [
      | inl gone ↦ rw gone (inl refl)
      | inr there ↦ rw there (elim (Bool-cases (is_eof x)) [
        | inl end ↦ inl (closes_eof x end)
        | inr other ↦ inr (v, he x refl other)
      ])
    ])
  ]
