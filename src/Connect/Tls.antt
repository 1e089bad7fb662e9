-- ===== src/Connect/Tls.antt =====
-- The TLS layer of crypto/tls, which a connection may put over its own Read and Write, and
-- server/baseconnect.go's readData. The layer is a parameter: a function of the two callbacks.
use netman.Common.{ℕ, Option, Bytes, if◌then◌else◌}
use netman.Common.Int.{ℤ}
use netman.Errors.{Error}
use netman.Kernel.{Sys, Call}
use netman.Connect.{BaseConnect, read, write}

abbrev pub Reader : Type 0 → Type 0
Reader W = BaseConnect → ℕ → W → Bytes × Option Error × BaseConnect × W

abbrev pub Writer : Type 0 → Type 0
Writer W = BaseConnect → Bytes → W → Call (ℤ × Option Error) × BaseConnect × W

pub record Tls (W : Type 0) : Type 0 where
  pub tls_read : Reader W → Reader W
  pub tls_write : Writer W → Writer W
  pub handshake : Reader W → Writer W → BaseConnect → W → Option Error × BaseConnect × W

module _ {W : Type 0} (sys : Sys W) (tls : Tls W) where
  -- readData.
  unfoldable pub read_data : Reader W
  read_data c size w = if c.tls_enable then tls.tls_read (read sys) c size w else read sys c size w

  -- The last step of Send, Text and Binary.
  unfoldable pub write_data : Writer W
  write_data c bs w = if c.tls_enable then tls.tls_write (write sys) c bs w else write sys c bs w
