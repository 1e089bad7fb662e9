-- ===== src/Util/DataPack/Limit.antt =====
-- util/datapack.go, UnPack: the limit bounds the length that a header may declare.
use netman.Common.{
  ℕ, ◌≤◌, ◌<◌, ◌≡◌, refl, false, Bytes, length, arith, [], Bool-cases, inl, inr, ◌&&◌, ltb,
}
use netman.Common.Endian.{read_u32_le}
use netman.Errors.{Result, ok, err, ◌>>=◌, ◌>>◌, reject_if, body_len_exceed_limit}
use netman.Util.Message.{Message}
use netman.Util.DataPack.{DataPacker, unpack}

module _ (limit : ℕ) where
  -- A header within the limit, with no body yet.
  abbrev pub HeaderFits : Result Message → Type 0
  HeaderFits (ok m) = (m.data_len ≤ limit) × (length m.body ≡ 0)
  HeaderFits (err e) = Unit {0}

  -- The message of a header whose length is within the limit.
  abbrev with_id : ℕ → Result (ℕ × Bytes) → Result Message
  with_id n r = r >>= λ (id, rest).
      ok (record { msg_id = id; data_len = n; body = []; is_web_socket = false; opcode = 0 })

  with_id-HeaderFits : (n : ℕ) (r : Result (ℕ × Bytes)) → n ≤ limit → HeaderFits (with_id n r)
  with_id-HeaderFits n (ok x) h = (h, refl)
  with_id-HeaderFits n (err e) h = tt

  checked-HeaderFits :
      (n max : ℕ) (r : Result (ℕ × Bytes))
      → max ≡ limit
      → 0 < limit
      → HeaderFits (reject_if (ltb 0 max && ltb max n) body_len_exceed_limit >> with_id n r)
  checked-HeaderFits n max r same some_limit = elim (Bool-cases (ltb 0 max && ltb max n)) [
    | inl over ↦ rw over tt
    | inr within ↦ rw within (with_id-HeaderFits n r (ground arith))
  ]

  read-HeaderFits :
      (max : ℕ) (r : Result (ℕ × Bytes))
      → max ≡ limit
      → 0 < limit
      → HeaderFits (
          r >>= λ (n, rest).
          reject_if (ltb 0 max && ltb max n) body_len_exceed_limit >> with_id n (read_u32_le rest))
  read-HeaderFits max (err e) same some_limit = tt
  read-HeaderFits max (ok (n, rest)) same some_limit =
      checked-HeaderFits n max (read_u32_le rest) same some_limit

  pub unpack-HeaderFits :
      (d : DataPacker) (bs : Bytes)
      → d.max_body_length ≡ limit
      → 0 < limit
      → HeaderFits (unpack d bs)
  unfolding unpack
  unpack-HeaderFits d bs same some_limit =
      read-HeaderFits d.max_body_length (read_u32_le bs) same some_limit
