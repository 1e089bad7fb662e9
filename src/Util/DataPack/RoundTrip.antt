-- ===== src/Util/DataPack/RoundTrip.antt =====
-- util/datapack.go: what UnPack reads from what Pack wrote, and from any eight bytes.
use netman.Common.{
  ℕ, ◌+◌, ◌*◌, ◌≤◌, ◌<◌, ◌≡◌, refl, ◌⊎◌, inl, inr, ◌∷◌, ◌++◌, [], arith, Bytes, length, take, false,
  All, Bool-cases, ltb, ◌&&◌, sym,
}
use netman.Common.Endian.{IsByte, IsU32, u32_le, read_u32_le, u32_le-read}
use netman.Errors.{ok, err, body_len_exceed_limit}
use netman.Util.Message.{Message}
use netman.Util.DataPack.{DataPacker, pack, unpack}

-- The message that UnPack makes of a header.
abbrev pub header : ℕ → ℕ → Message
header n i = record { msg_id = i; data_len = n; body = []; is_web_socket = false; opcode = 0 }

-- A body within the packer's limit.
abbrev pub Admits : DataPacker → ℕ → Type 0
Admits d n = (d.max_body_length ≡ 0) ⊎ (n ≤ d.max_body_length)

pub unpack_header :
    (d : DataPacker) (n i : ℕ)
    → IsU32 n
    → IsU32 i
    → Admits d n
    → unpack d (u32_le n ++ u32_le i) ≡ ok (header n i)
unfolding unpack u32_le read_u32_le
unpack_header d n i hn hi ha = ground arith

-- Pack writes eight bytes of header and then the body unchanged, and UnPack of that header gives
-- the message number and the body's length back, when both fit 32 bits and the limit admits them.
pub unpack-pack :
    (d : DataPacker) (i : ℕ) (body : Bytes)
    → IsU32 i
    → IsU32 (length body)
    → Admits d (length body)
    → (head : Bytes) × (pack d i body ≡ ok (head ++ body))
      × (length head ≡ 8)
      × (unpack d head ≡ ok (header (length body) i))
unfolding pack unpack u32_le read_u32_le
unpack-pack d i body hi hn ha =
    (u32_le (length body) ++ u32_le i, ground arith, refl, unpack_header d _ i hn hi ha)

-- On any eight bytes, UnPack either refuses the length by the limit or returns a header that
-- Pack's layout maps back to the same eight bytes.
pub unpack_total :
    (d : DataPacker) (bs : Bytes)
    → length bs ≡ 8
    → All IsByte bs
    → ((n : ℕ) × (0 < d.max_body_length)
        × (d.max_body_length < n)
        × (take 4 bs ≡ u32_le n)
        × (unpack d bs ≡ err body_len_exceed_limit))
      ⊎ ((n : ℕ) × (i : ℕ) × IsU32 n
          × IsU32 i
          × Admits d n
          × (unpack d bs ≡ ok (header n i))
          × (bs ≡ u32_le n ++ u32_le i))
unfolding unpack read_u32_le
unpack_total d (a ∷ b ∷ c ∷ e ∷ f ∷ g ∷ i ∷ j ∷ []) h hb =
    let n = a + b * 256 + c * 65536 + e * 16777216 in
    let m = f + g * 256 + i * 65536 + j * 16777216 in
    let lo = u32_le-read a b c e (omega arith) (omega arith) (omega arith) (omega arith) in
    let hi' = u32_le-read f g i j (omega arith) (omega arith) (omega arith) (omega arith) in
    elim (Bool-cases (ltb 0 d.max_body_length && ltb d.max_body_length n)) [
      | inl over ↦ inl (n, ground arith, ground arith, sym lo, ground arith)
      | inr fits ↦
          inr (n, m, omega arith, omega arith, ground arith, ground arith, ground (arith, lo, hi'))
    ]
unpack_total d _ h hb = absurd (omega arith)
