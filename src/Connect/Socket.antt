-- ===== src/Connect/Socket.antt =====
-- server/baseconnect.go: Write and ProceedWrite leave a connection its descriptor and its kind.
use netman.Common.{
  ℕ, Bool, ◌≡◌, refl, ◌∙◌, inl, inr, not, ◌&&◌, Option, none, some, Bytes, length, drop, ltb, ◌==◌,
  arith, choose, Option-cases,
}
use netman.Common.Int.{ℤ}
use netman.Errors.{Errno, Error, ebadf, epipe, eagain, eintr, other}
use netman.Kernel.{Sys, WriteResult, wrote, write_failed, Call, panics}
use netman.Epoll.{Poller}
use netman.Util.Queue.{pop}
use netman.Connect.{
  BaseConnect, proceed_write, proceed_read, proceed_send, get_write_buff, sync_readable,
  keep_unsent, await_writable, after_write, make_blocking, is_out, write_direct, write,
}

-- The same descriptor, of the same kind.
abbrev pub SameSocket : BaseConnect → BaseConnect → Type 0
SameSocket c c' = (c'.fd ≡ c.fd) × (c'.is_udp ≡ c.is_udp)

pub get_write_buff-SameSocket : (c : BaseConnect) → SameSocket c (get_write_buff c).2
unfolding get_write_buff pop
get_write_buff-SameSocket c = ground arith

sync_readable-SameSocket : (c : BaseConnect) (r : Option Errno) → SameSocket c (sync_readable c r).1
unfolding sync_readable
sync_readable-SameSocket c none = (refl, refl)
sync_readable-SameSocket c (some e) = (refl, refl)

keep_unsent-SameSocket :
    (c : BaseConnect) (bs : Bytes) (r : WriteResult) → SameSocket c (keep_unsent c bs r).1
unfolding keep_unsent
keep_unsent-SameSocket c bs (WriteResult.wrote n) = (refl, refl)
keep_unsent-SameSocket c bs (WriteResult.write_failed e) = (refl, refl)

pub SameSocket-trans :
    {fd fd' fd'' : ℕ} {udp udp' udp'' : Bool}
    → (fd' ≡ fd) × (udp' ≡ udp)
    → (fd'' ≡ fd') × (udp'' ≡ udp')
    → (fd'' ≡ fd) × (udp'' ≡ udp)
SameSocket-trans (f, u) (f', u') = (f' ∙ f, u' ∙ u)

abbrev pub Written : Type 0 → Type 0
Written W = Call (ℤ × Option Error) × BaseConnect × W

module _ {W : Type 0} (sys : Sys W) where
  proceed_at-SameSocket :
      (c : BaseConnect) (p : Option Poller) (w : W)
      → SameSocket c
          (elim p as (λ x. Call (Option Error) × BaseConnect × W) [
            | none ↦ (panics, c, w)
            | some q ↦ proceed_read sys c q w
          ]).1
  unfolding proceed_read
  proceed_at-SameSocket c none w = (refl, refl)
  proceed_at-SameSocket c (some p) w = sync_readable-SameSocket c _

  pub proceed_write-SameSocket : (c : BaseConnect) (w : W) → SameSocket c (proceed_write sys c w).1
  unfolding proceed_write proceed_send
  proceed_write-SameSocket c w =
      let (data_buff, empty, c₁) = get_write_buff c in
      SameSocket-trans (get_write_buff-SameSocket c) (
        choose (λ (r : Call (Option Error) × BaseConnect × W). SameSocket c₁ r.1) empty
          (proceed_at-SameSocket c₁ c₁.poller w)
          (keep_unsent-SameSocket c₁ data_buff (sys.write c₁.fd data_buff w).0))

  await_writable-SameSocket :
      (c : BaseConnect) (bs : Bytes) (n : ℕ) (w : W) → SameSocket c (await_writable sys c bs n w).1
  unfolding await_writable
  await_writable-SameSocket c bs n w = elim (Option-cases c.poller) [
    | inl none_there ↦ rw none_there (refl, refl)
    | inr (p, at) ↦ rw at (refl, refl)
  ]

  after_write-SameSocket :
      (c : BaseConnect) (bs : Bytes) (r : WriteResult) (w : W)
      → SameSocket c (after_write sys c bs r w).1
  unfolding after_write
  after_write-SameSocket c bs (write_failed ebadf) w = (refl, refl)
  after_write-SameSocket c bs (write_failed epipe) w = (refl, refl)
  after_write-SameSocket c bs (write_failed eagain) w = await_writable-SameSocket c bs (length bs) w
  after_write-SameSocket c bs (write_failed eintr) w = await_writable-SameSocket c bs (length bs) w
  after_write-SameSocket c bs (write_failed other) w = await_writable-SameSocket c bs (length bs) w
  after_write-SameSocket c bs (wrote n) w =
      choose (λ (r : Written W). SameSocket c r.1) (not (n == length bs) && ltb 0 n)
        (await_writable-SameSocket c (drop n bs) (length bs) _) (refl, refl)

  write_direct-SameSocket :
      (c : BaseConnect) (bs : Bytes) (e : Option Errno) (w : W)
      → SameSocket c (write_direct sys c bs e w).1
  unfolding write_direct
  write_direct-SameSocket c bs (some e) w = (refl, refl)
  write_direct-SameSocket c bs none w =
      after_write-SameSocket c bs (sys.write c.fd bs w).0 (sys.write c.fd bs w).1

  pub write-SameSocket : (c : BaseConnect) (bs : Bytes) (w : W) → SameSocket c (write sys c bs w).1
  unfolding write
  write-SameSocket c bs w =
      let (e, w') = make_blocking sys c w in
      choose (λ (r : Written W). SameSocket c r.1) (is_out c.state) (refl, refl)
        (write_direct-SameSocket c bs e w')
