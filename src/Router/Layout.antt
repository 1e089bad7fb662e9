-- ===== src/Router/Layout.antt =====
-- iface/ipacker.go: how packets are laid out, which the application may choose.
use netman.Common.{ℕ, Bytes}
use netman.Errors.{Result}
use netman.Util.Message.{Message}
use netman.Util.DataPack.{DataPacker, pack, unpack, get_header_length}

pub record Packer : Type 0 where
  pub pack : ℕ → Bytes → Result Bytes
  pub unpack : Bytes → Result Message
  pub header_length : ℕ

-- The packer of a server that is given none.
abbrev pub default_packer : DataPacker → Packer
default_packer d = record { pack = pack d; unpack = unpack d; header_length = get_header_length d }
