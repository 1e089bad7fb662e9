-- ===== src/Server/Sends.antt =====
-- server/baseconnect.go and server/router.go: what Send leaves of a served connection.
use netman.Common.{ℕ, refl, Bytes, length, if◌then◌else◌, choose, ◌++◌, ◌%◌, ◌^◌}
use netman.Common.Endian.{u32_le}
use netman.Kernel.{Sys}
use netman.Util.DataPack.{DataPacker, pack}
use netman.Connect.{BaseConnect, write}
use netman.Connect.Tls.{Tls, write_data}
use netman.Connect.Order.{WriteLaws, IsQueued, write-Extends}
use netman.Router.{RouterProtocol, send}
use netman.Router.Layout.{default_packer}
use netman.Wait.Served.{IsServed}
use netman.Wait.Steps.{IsServed-base}
use netman.Connect.Socket.{SameSocket, SameSocket-trans, Written, write-SameSocket}

-- What the layer of crypto/tls keeps when it writes, as it writes through the connection's own Write.
pub record TlsWriteLaws {W : Type 0} (sys : Sys W) (tls : Tls W) : Type 0 where
  pub write_same :
      (c : BaseConnect) (bs : Bytes) (w : W) → SameSocket c (tls.tls_write (write sys) c bs w).1
  pub write_queued :
      (c : BaseConnect) (bs : Bytes) (w : W)
      → IsQueued c
      → IsQueued (tls.tls_write (write sys) c bs w).1

module _ {W : Type 0} (sys : Sys W) (tls : Tls W) (d : DataPacker) (udp_buffer : ℕ)
    (sent : ℕ → W → Bytes) (writes : WriteLaws sys sent) (tls_writes : TlsWriteLaws sys tls) where
  write_data-kept :
      (c : BaseConnect) (bs : Bytes) (w : W)
      → IsQueued c
      → SameSocket c (write_data sys tls c bs w).1 × IsQueued (write_data sys tls c bs w).1
  unfolding write_data
  write_data-kept c bs w q =
      choose (λ (r : Written W). SameSocket c r.1 × IsQueued r.1) c.tls_enable
        (tls_writes.write_same c bs w, tls_writes.write_queued c bs w q)
        (write-SameSocket sys c bs w, (write-Extends sys sent writes c bs w q).1)

  sized-kept :
      (c : BaseConnect) (n : ℕ)
      → IsQueued c
      → let c' = if c.tls_enable then record c { tls_write_packet_size = n } else c in
        SameSocket c c' × IsQueued c'
  sized-kept c n q =
      choose (λ c'. SameSocket c c' × IsQueued c') c.tls_enable
        ((refl, refl), record { attached = q.attached; drained = q.drained }) ((refl, refl), q)

  -- Send keeps a served connection served.
  pub send-IsServed :
      (k : ℕ) (c : RouterProtocol) (msg_id : ℕ) (bs : Bytes) (w : W)
      → IsServed k c
      → IsServed k (send sys tls (default_packer d) udp_buffer c msg_id bs w).1
  unfolding send pack
  send-IsServed k c msg_id bs w v =
      let wire = u32_le (length bs % 2 ^ 32) ++ u32_le msg_id ++ bs in
      let base =
        if c.tls_enable then record c.base { tls_write_packet_size = length wire } else c.base in
      let (same, q) = sized-kept c.base (length wire) v.queued in
      let (same', q') = write_data-kept base wire w q in
      let written = (write_data sys tls base wire w).1 in
      IsServed-base k c written v (SameSocket-trans same same') q'
