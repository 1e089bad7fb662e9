-- ===== src/Wait/Websockets/Shared.antt =====
-- server/websocket.go and server/connectmgr.go: the calls of a websocket connection keep its base and
-- the manager beside the world.
use netman.Common.{ℕ, ◌≡◌, refl, ap, ◌∙◌, false, Option, none, some, Bytes, arith, choose}
use netman.Common.Int.{ℤ}
use netman.Errors.{Error, websocket_must_utf8}
use netman.Kernel.{Sys, Call, WriteResult, wrote, write_failed}
use netman.Host.{Host}
use netman.Connect.{BaseConnect, read, write}
use netman.Connect.Tls.{Tls, read_data, write_data}
use netman.Connect.Order.{Accepts, WriteLaws, IsQueued, write-Extends}
use netman.Connect.Socket.{write-SameSocket}
use netman.Connect.Returns.{Returned, WritesKeep, write-Kept}
use netman.Manager.{delete, remove, lock}
use netman.Manager.Map.{delete-IsMap}
use netman.Manager.Entries.{HoldsAll, delete-AllEntries}
use netman.Router.Stream.{StreamLaws}
use netman.Websocket.{WebsocketProtocol}
use netman.Websocket.Safe.{InFrame, ReadHolds, WriteHolds, Holds}
use netman.Wait.{reaction}
use netman.Wait.Frame.{ReadKeeps, read_data-Keeps}
use netman.Wait.Codes.{ReadsCodeless, error_code, read_data-ReadsCodeless}
use netman.Wait.Steps.{Keeps-IsQueued}
use netman.Wait.Websockets.{Managed, Shared, beside, managing, removed}

-- The base of a connection under its own descriptor: it belongs to a poller and waits for a writable
-- socket if it has bytes left.
abbrev pub HeldAt : ℕ → BaseConnect → Type 0
HeldAt fd b = (b.fd ≡ fd) × IsQueued b

-- A websocket connection between two frames or inside one.
abbrev pub IsOpenAt : ℕ → WebsocketProtocol → Type 0
IsOpenAt fd c = HeldAt fd c.base × InFrame c

-- A manager with a free lock, with one connection for each descriptor, and all of them such.
abbrev pub IsManaging : Managed → Type 0
IsManaging m = HoldsAll IsOpenAt m

abbrev pub IsShared : {W : Type 0} → Shared W → Type 0
IsShared s = (m : Managed) × (s.0 ≡ some m) × IsManaging m

-- What a poller relies on in crypto/tls under a websocket connection: it reads, writes and shakes hands
-- through the connection's own Read and Write, so it keeps what these keep, does not touch the manager,
-- and returns; and its reads fail with no error of the websocket protocol.
pub record TlsShares {W : Type 0} (sys : Sys W) (tls : Tls (Shared W)) : Type 0 where
  pub read_keeps : ReadKeeps (tls.tls_read (read (beside sys)))
  pub read_codeless : ReadsCodeless (tls.tls_read (read (beside sys)))
  pub read_shared :
      (c : BaseConnect) (size : ℕ) (s : Shared W)
      → (tls.tls_read (read (beside sys)) c size s).3.0 ≡ s.0
  pub write_holds :
      (fd : ℕ) (c : BaseConnect) (bs : Bytes) (s : Shared W)
      → HeldAt fd c
      → let (r, c', s') = tls.tls_write (write (beside sys)) c bs s in
        Returned r × HeldAt fd c' × (s'.0 ≡ s.0)
  pub handshake_holds :
      (fd : ℕ) (c : BaseConnect) (s : Shared W)
      → HeldAt fd c
      → HeldAt fd (tls.handshake (read (beside sys)) (write (beside sys)) c s).1

beside-Accepts :
    {W : Type 0} (sent : W → Bytes) (bs : Bytes) (s : Shared W) (r : WriteResult) (w : W)
    → Accepts sent bs s.1 (r, w)
    → Accepts {W = Shared W} (λ s. sent s.1) bs s (r, (s.0, w))
beside-Accepts sent bs s (wrote n) w h = h
beside-Accepts sent bs s (write_failed e) w h = h

module _ {W : Type 0} (sys : Sys W) where
  pub beside-WriteLaws :
      (sent : ℕ → W → Bytes) → WriteLaws sys sent → WriteLaws (beside sys) (λ fd s. sent fd s.1)
  beside-WriteLaws sent laws = record {
    write_accepts = λ fd bs s. beside-Accepts (sent fd) bs s _ _ (laws.write_accepts fd bs s.1);
    nonblock_keeps = λ k fd b s. laws.nonblock_keeps k fd b s.1;
    epoll_keeps = λ k p ctl fd s. laws.epoll_keeps k p ctl fd s.1;
  }

  pub same_manager : (o : Option Managed) → WritesKeep (beside sys) (λ s. s.0 ≡ o)
  same_manager o = record {
    keeps_write = λ fd bs s e. e;
    keeps_nonblock = λ fd b s e. e;
    keeps_control = λ p k fd s e. e;
  }

  read_data_shared :
      (tls : Tls (Shared W)) (laws : TlsShares sys tls) (c : BaseConnect) (size : ℕ) (s : Shared W)
      → (read_data (beside sys) tls c size s).3.0 ≡ s.0
  unfolding read_data read
  read_data_shared tls laws c size s =
      choose (λ (r : Bytes × Option Error × BaseConnect × Shared W). r.3.0 ≡ s.0) c.tls_enable
        (laws.read_shared c size s) refl

no_code :
    (e : Option Error) (x : Error) → error_code e ≡ false → e ≡ some x → x ≡ websocket_must_utf8 → ⊥
unfolding reaction
no_code none x h same utf8 = cc
no_code (some y) x h same utf8 = cc

same-IsShared : {W : Type 0} (s s' : Shared W) → s'.0 ≡ s.0 → IsShared s → IsShared s'
same-IsShared s s' e (m, at, v) = (m, e ∙ at, v)

removed-IsShared :
    (fd : ℕ) (o : Option Managed)
    → (m : Managed) × (o ≡ some m) × IsManaging m
    → (m : Managed) × (removed fd o ≡ some m) × IsManaging m
unfolding remove lock
removed-IsShared fd o (m, at, v) = (
  record { connects = delete fd m.connects; locked = false },
  ap (removed fd) at ∙ ground (arith, v.free),
  record {
    free = refl;
    is_map = delete-IsMap fd m.connects v.is_map;
    all = delete-AllEntries IsOpenAt fd m.connects v.all;
  },
)

module _ {W : Type 0} (sys : Sys W) (tls : Tls (Shared W)) (host : Host W) (fd : ℕ)
    (sent : ℕ → W → Bytes) (incoming : ℕ → Shared W → Bytes) (writes : WriteLaws sys sent)
    (reads : StreamLaws (read_data (beside sys) tls) incoming) (laws : TlsShares sys tls) where
  read-Holds :
      (b : BaseConnect) (size : ℕ) (s : Shared W)
      → HeldAt fd b
      → IsShared s
      → ReadHolds (HeldAt fd) IsShared size (read_data (beside sys) tls b size s)
  read-Holds b size s (at, queued) good =
      let (bs, e, b', s') = read_data (beside sys) tls b size s in
      let k = read_data-Keeps (beside sys) tls laws.read_keeps b size s in
      (
        (ap (λ b. b.fd) k ∙ at, Keeps-IsQueued b b' k queued),
        same-IsShared s s' (read_data_shared sys tls laws b size s) good,
        reads.fits b size s,
        reads.some_bytes b size s,
        λ x. no_code e x (read_data-ReadsCodeless (beside sys) tls laws.read_codeless b size s),
      )

  write-Holds :
      (b : BaseConnect) (bs : Bytes) (s : Shared W)
      → HeldAt fd b
      → IsShared s
      → WriteHolds (HeldAt fd) IsShared (write_data (beside sys) tls b bs s)
  unfolding write_data
  write-Holds b bs s (at, queued) good =
      let under = tls.tls_write (write (beside sys)) b bs s in
      let over = laws.write_holds fd b bs s (at, queued) in
      let plain = write (beside sys) b bs s in
      let kept =
        write-Kept (beside sys) (λ s'. s'.0 ≡ s.0) (same_manager sys s.0) b bs s queued.attached
          refl in
      let sent' = λ (fd : ℕ) (s : Shared W). sent fd s.1 in
      choose
        (λ (r : Call (ℤ × Option Error) × BaseConnect × Shared W).
          WriteHolds (HeldAt fd) IsShared r)
        b.tls_enable (over.0, over.1, same-IsShared s under.2 over.2 good)
        (
          kept.0,
          (
            (write-SameSocket (beside sys) b bs s).0 ∙ at,
            (write-Extends (beside sys) sent' (beside-WriteLaws sys sent writes) b bs s queued).1,
          ),
          same-IsShared s plain.2 kept.1 good,
        )

  pub shared-Holds : Holds (beside sys) tls (managing host) (HeldAt fd) IsShared
  shared-Holds = record {
    polled = λ b h. h.1.attached;
    reads = read-Holds;
    writes = write-Holds;
    controls = λ p k fd s good. good;
    closes = λ fd s good. good;
    removes = λ k s good. removed-IsShared k s.0 good;
    on_close = λ id s good. good;
    handler_open = λ id s good. good;
    handler_close = λ id s good. good;
  }
