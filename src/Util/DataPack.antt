-- ===== src/Util/DataPack.antt =====
-- util/datapack.go: the default packer. A packet is the length of its body and its message number,
-- each in four bytes, least significant first, and then the body.
pub mod RoundTrip
pub mod Limit
use netman.Common.{ℕ, ◌%◌, ◌^◌, ◌&&◌, ltb, Bytes, length, [], ◌++◌, false}
use netman.Common.Endian.{u32_le, read_u32_le}
use netman.Errors.{Result, ok, ◌>>=◌, ◌>>◌, reject_if, body_len_exceed_limit}
use netman.Util.Message.{Message}

pub record DataPacker : Type 0 where
  pub max_body_length : ℕ

unfoldable pub new_data_packer : DataPacker
new_data_packer = record { max_body_length = 0 }

unfoldable pub set_max_body_length : DataPacker → ℕ → DataPacker
set_max_body_length d n = record d { max_body_length = n }

-- Writes to a bytes.Buffer do not fail, so the error results of Pack are never taken.
unfoldable pub pack : DataPacker → ℕ → Bytes → Result Bytes
pack d msg_id data' = ok (u32_le (length data' % 2 ^ 32) ++ u32_le msg_id ++ data')

unfoldable pub unpack : DataPacker → Bytes → Result Message
unpack d bs = do
  (data_len, rest) ← read_u32_le bs
  reject_if (ltb 0 d.max_body_length && ltb d.max_body_length data_len) body_len_exceed_limit
  (msg_id, _) ← read_u32_le rest
  ok (record { msg_id = msg_id; data_len = data_len; body = []; is_web_socket = false; opcode = 0 })

unfoldable pub get_header_length : DataPacker → ℕ
get_header_length d = 8
