-- ===== src/Connect/Returns.antt =====
-- server/baseconnect.go: Write of a connection with a poller returns, and of the world around it only the
-- system's calls change anything.
use netman.Common.{
  ℕ, ◌≡◌, Bool, true, false, not, ◌&&◌, Option, none, some, Bytes, length, drop, ltb, ◌==◌, choose,
  if◌then◌else◌,
}
use netman.Common.Int.{ℤ}
use netman.Errors.{Errno, Error, ebadf, epipe, eagain, eintr, other}
use netman.Kernel.{Sys, WriteResult, wrote, write_failed, Call, returns, panics}
use netman.Epoll
use netman.Epoll.{Poller}
use netman.Connect.{
  BaseConnect, is_out, await_writable, after_write, make_blocking, write_direct, write,
}

abbrev pub Returned : {A : Type 0} → Call A → Type 0
Returned (returns a) = Unit {0}
Returned panics = ⊥

-- What the calls that a write makes keep of the world.
pub record WritesKeep {W : Type 0} (sys : Sys W) (P : W → Type 0) : Type 0 where
  pub keeps_write : (fd : ℕ) (bs : Bytes) (w : W) → P w → P (sys.write fd bs w).1
  pub keeps_nonblock : (fd : ℕ) (b : Bool) (w : W) → P w → P (sys.set_nonblock fd b w).1
  pub keeps_control : (p : ℕ) (k : _) (fd : ℕ) (w : W) → P w → P (sys.epoll_ctl p k fd w).1

module _ {W : Type 0} (sys : Sys W) (P : W → Type 0) (laws : WritesKeep sys P) where
  abbrev Kept : Call (ℤ × Option Error) × BaseConnect × W → Type 0
  Kept (r, c, w) = Returned r × P w

  waited :
      (r : ℤ × Option Error) (o : Option Poller) (c c' : BaseConnect) (w : W)
      → (p : Poller) × (o ≡ some p)
      → P w
      → Kept (elim o as (λ x. Call (ℤ × Option Error) × BaseConnect × W) [
        | none ↦ (panics, c', w)
        | some p ↦ (returns r, c', (Epoll.mod_write sys p c.fd c.id w).1)
      ])
  unfolding Epoll.mod_write
  waited r none c c' w at good = cc
  waited r (some p) c c' w at good = (tt, laws.keeps_control p.epfd _ c.fd w good)

  await_writable-Kept :
      (c : BaseConnect) (bs : Bytes) (n : ℕ) (w : W)
      → (p : Poller) × (c.poller ≡ some p)
      → P w
      → Kept (await_writable sys c bs n w)
  unfolding await_writable
  await_writable-Kept c bs n w at good = waited _ c.poller c _ w at good

  after_write-Kept :
      (c : BaseConnect) (bs : Bytes) (r : WriteResult) (w : W)
      → (p : Poller) × (c.poller ≡ some p)
      → P w
      → Kept (after_write sys c bs r w)
  unfolding after_write
  after_write-Kept c bs (write_failed ebadf) w at good = (tt, good)
  after_write-Kept c bs (write_failed epipe) w at good = (tt, good)
  after_write-Kept c bs (write_failed eagain) w at good =
      await_writable-Kept c bs (length bs) w at good
  after_write-Kept c bs (write_failed eintr) w at good =
      await_writable-Kept c bs (length bs) w at good
  after_write-Kept c bs (write_failed other) w at good =
      await_writable-Kept c bs (length bs) w at good
  after_write-Kept c bs (wrote n) w at good =
      let again = c.handshake_completed && (n == length bs) in
      let w' = if again then (sys.set_nonblock c.fd true w).1 else w in
      let good' : P w' = choose P again (laws.keeps_nonblock c.fd true w good) good in
      choose Kept (not (n == length bs) && ltb 0 n)
        (await_writable-Kept c (drop n bs) (length bs) w' at good') (tt, good')

  write_direct-Kept :
      (c : BaseConnect) (bs : Bytes) (e : Option Errno) (w : W)
      → (p : Poller) × (c.poller ≡ some p)
      → P w
      → Kept (write_direct sys c bs e w)
  unfolding write_direct
  write_direct-Kept c bs (some e) w at good = (tt, good)
  write_direct-Kept c bs none w at good =
      after_write-Kept c bs (sys.write c.fd bs w).0 (sys.write c.fd bs w).1 at
        (laws.keeps_write c.fd bs w good)

  pub write-Kept :
      (c : BaseConnect) (bs : Bytes) (w : W)
      → (p : Poller) × (c.poller ≡ some p)
      → P w
      → Returned (write sys c bs w).0 × P (write sys c bs w).2
  unfolding write make_blocking
  write-Kept c bs w at good =
      let (e, w') = make_blocking sys c w in
      choose Kept (is_out c.state) (tt, good)
        (write_direct-Kept c bs e w' at (
          choose (λ (r : Option Errno × W). P r.1) c.handshake_completed
            (laws.keeps_nonblock c.fd false w good) good))
