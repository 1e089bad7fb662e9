-- ===== src/Util/Message.antt =====
-- util/message.go: what a decoder hands to the application.
use netman.Common.{ℕ, ◌%◌, ◌^◌, Bool, ◌==◌, Bytes, length}

pub record Message : Type 0 where
  pub msg_id : ℕ
  pub data_len : ℕ
  pub body : Bytes
  pub is_web_socket : Bool
  pub opcode : ℕ

-- ID, Bytes, Len, GetOpcode and IsWebsocket. A `uint32` fits Go's `int`.
unfoldable pub id : Message → ℕ
id m = m.msg_id

unfoldable pub bytes : Message → Bytes
bytes m = m.body

unfoldable pub len : Message → ℕ
len m = m.data_len

unfoldable pub get_opcode : Message → ℕ
get_opcode m = m.opcode

unfoldable pub is_websocket : Message → Bool
is_websocket m = m.is_web_socket

-- SetData also renews the length.
unfoldable pub set_data : Message → Bytes → Message
set_data m bs = record m { body = bs; data_len = length bs % 2 ^ 32 }

unfoldable pub is_text : Message → Bool
is_text m = m.opcode == 1

unfoldable pub is_binary : Message → Bool
is_binary m = m.opcode == 2
