-- ===== src/Connect/Order.antt =====
-- server/baseconnect.go: the bytes of a connection reach the socket in the order of the calls.
use netman.Common.{
  ℕ, ◌≤◌, ◌≡◌, refl, sym, ap, ◌∙◌, Bool, true, false, Option, none, some, List, [], ◌∷◌, ◌++◌,
  Bytes, length, take, drop, arith, inl, inr, Bool-cases, take-append-drop, append_assoc,
  append-nil, length-zero, take_all, ◌==◌, ltb, not, ◌&&◌, if◌then◌else◌,
}
use netman.Common.Int.{ℤ, pos, negsuc}
use netman.Errors.{Errno, Error, ebadf, epipe, eagain, eintr, other}
use netman.Kernel.{Sys, WriteResult, wrote, write_failed, Call, returns, panics, ctl_mod, out}
use netman.Epoll.{Poller}
use netman.Util.Queue.{push, pop}
use netman.Connect.{
  BaseConnect, is_out, get_write_buff, await_writable, after_write, write, make_blocking,
  write_direct,
}

-- write(2) takes a prefix of what it is given, or nothing when it fails; the other calls on the way
-- send nothing. `sent` is the stream that the socket has accepted, in WriteLaws by the descriptor.
abbrev pub Accepts : {W : Type 0} → (W → Bytes) → Bytes → W → WriteResult × W → Type 0
Accepts sent bs w (wrote n, w') = (n ≤ length bs) × (sent w' ≡ sent w ++ take n bs)
Accepts sent bs w (write_failed e, w') = sent w' ≡ sent w

pub record WriteLaws {W : Type 0} (sys : Sys W) (sent : ℕ → W → Bytes) : Type 0 where
  pub write_accepts : (fd : ℕ) (bs : Bytes) (w : W) → Accepts (sent fd) bs w (sys.write fd bs w)
  pub nonblock_keeps : (k fd : ℕ) (b : Bool) (w : W) → sent k (sys.set_nonblock fd b w).1 ≡ sent k w
  pub epoll_keeps :
      (k p : ℕ) (ctl : _) (fd : ℕ) (w : W) → sent k (sys.epoll_ctl p ctl fd w).1 ≡ sent k w

abbrev pub concat : List Bytes → Bytes
concat [] = []
concat (x ∷ xs) = x ++ concat xs

-- What waits to be sent.
abbrev pub pending : BaseConnect → Bytes
pending c = c.write_buff ++ concat c.write_q.inner

concat-push : (xs : List Bytes) (b : Bytes) → concat (xs ++ b ∷ []) ≡ concat xs ++ b
concat-push [] b = append-nil b
concat-push (x ∷ xs) b = ap (◌++◌ x) (concat-push xs b) ∙ sym (append_assoc x (concat xs) b)

-- GetWriteBuff moves bytes from the queue to the buffer, and loses none.
pub pending-get_write_buff :
    (c : BaseConnect)
    → let (bs, empty, c') = get_write_buff c in
      (pending c' ≡ pending c) × (c'.write_buff ≡ bs) × (empty ≡ true → pending c ≡ [])
unfolding get_write_buff pop
pending-get_write_buff c = ground (arith, length-zero c.write_buff)

pub pending-push :
    (front : Bytes) (q : List Bytes) (b : Bytes)
    → front ++ concat (q ++ b ∷ []) ≡ (front ++ concat q) ++ b
pending-push front q b = ap (◌++◌ front) (concat-push q b) ∙ sym (append_assoc front (concat q) b)

-- A connection that belongs to a poller, and that waits for a writable socket while it has bytes left.
pub record IsQueued (c : BaseConnect) : Type 0 where
  pub attached : (p : Poller) × (c.poller ≡ some p)
  pub drained : is_out c.state ≡ false → pending c ≡ []

-- The bytes that a call of Write reports as taken.
abbrev pub accepted : Call (ℤ × Option Error) → Bytes → Bytes
accepted (returns (pos n, none)) bs = take n bs
accepted (returns (pos n, some e)) bs = []
accepted (returns (negsuc n, e)) bs = []
accepted panics bs = []

-- The socket's stream with what waits behind it, after a call, is that before it and then the bytes
-- that the call took.
abbrev pub Extends :
    {W : Type 0}
    → (ℕ → W → Bytes)
    → BaseConnect
    → W
    → Bytes
    → Call (ℤ × Option Error) × BaseConnect × W
    → Type 0
Extends sent c w bs (r, c', w') =
    (sent c.fd w' ++ pending c' ≡ (sent c.fd w ++ pending c) ++ accepted r bs) × IsQueued c'

module _ {W : Type 0} (sys : Sys W) (sent : ℕ → W → Bytes) (laws : WriteLaws sys sent) where
  await_writable-Extends :
      (c : BaseConnect) (bs : Bytes) (n : ℕ) (w w' : W)
      → pending c ≡ []
      → (p : Poller) × (c.poller ≡ some p)
      → sent c.fd w' ≡ sent c.fd w ++ take n bs
      → Extends sent c w bs (await_writable sys c (drop n bs) (length bs) w')
  unfolding await_writable push
  await_writable-Extends c bs n w w' empty (p, at) took = (
    ground (
      arith,
      pending-push c.write_buff c.write_q.inner (drop n bs),
      laws.epoll_keeps c.fd p.epfd (ctl_mod out c.id) c.fd w',
      take-append-drop n bs,
      take_all (length bs) bs,
      append_assoc (sent c.fd w) (take n bs) (drop n bs),
      append-nil (sent c.fd w),
    ),
    record { attached = (p, ground arith); drained = ground arith },
  )

  nonblock_if-sent :
      (b : Bool) (fd : ℕ) (w : W)
      → sent fd (if b then (sys.set_nonblock fd true w).1 else w) ≡ sent fd w
  nonblock_if-sent true fd w = laws.nonblock_keeps fd fd true w
  nonblock_if-sent false fd w = refl

  -- Straight to the socket: what it does not take waits in the queue.
  after_write-Extends :
      (c : BaseConnect) (bs : Bytes) (r : WriteResult) (w w' : W)
      → pending c ≡ []
      → (p : Poller) × (c.poller ≡ some p)
      → Accepts (sent c.fd) bs w (r, w')
      → Extends sent c w bs (after_write sys c bs r w')
  unfolding after_write
  after_write-Extends c bs (write_failed ebadf) w w' empty at h =
      (ground (arith, append-nil (sent c.fd w)), record { attached = at; drained = λ _. empty })
  after_write-Extends c bs (write_failed epipe) w w' empty at h =
      (ground (arith, append-nil (sent c.fd w)), record { attached = at; drained = λ _. empty })
  after_write-Extends c bs (write_failed eagain) w w' empty at h =
      await_writable-Extends c bs 0 w w' empty at (ground (arith, append-nil (sent c.fd w)))
  after_write-Extends c bs (write_failed eintr) w w' empty at h =
      await_writable-Extends c bs 0 w w' empty at (ground (arith, append-nil (sent c.fd w)))
  after_write-Extends c bs (write_failed other) w w' empty at h =
      await_writable-Extends c bs 0 w w' empty at (ground (arith, append-nil (sent c.fd w)))
  after_write-Extends c bs (wrote n) w w' empty at h =
      let b = c.handshake_completed && (n == length bs) in
      elim (Bool-cases (not (n == length bs) && ltb 0 n)) [
        | inl short ↦
            rw short (await_writable-Extends c bs n w _ empty at (nonblock_if-sent b c.fd w' ∙ h.1))
        | inr whole ↦ rw whole (
          ground (
            arith,
            nonblock_if-sent b c.fd w',
            append-nil (sent c.fd w),
            append-nil (sent c.fd w ++ take n bs),
          ),
          record { attached = at; drained = λ _. empty },
        )
      ]

  make_blocking-sent : (c : BaseConnect) (w : W) → sent c.fd (make_blocking sys c w).1 ≡ sent c.fd w
  unfolding make_blocking
  make_blocking-sent c w = ground (arith, laws.nonblock_keeps c.fd c.fd false w)

  Accepts-from :
      (fd : ℕ) (bs : Bytes) (r : WriteResult) {w w' : W} (w'' : W)
      → sent fd w' ≡ sent fd w
      → Accepts (sent fd) bs w' (r, w'')
      → Accepts (sent fd) bs w (r, w'')
  Accepts-from fd bs (wrote n) w'' e h = (h.0, ground arith)
  Accepts-from fd bs (write_failed x) w'' e h = h ∙ e

  write_direct-Extends :
      (c : BaseConnect) (bs : Bytes) (e : Option Errno) (w w' : W)
      → pending c ≡ []
      → (p : Poller) × (c.poller ≡ some p)
      → sent c.fd w' ≡ sent c.fd w
      → Extends sent c w bs (write_direct sys c bs e w')
  unfolding write_direct
  write_direct-Extends c bs (some e) w w' empty at h =
      (ground (arith, append-nil (sent c.fd w)), record { attached = at; drained = λ _. empty })
  write_direct-Extends c bs none w w' empty at h =
      after_write-Extends c bs (sys.write c.fd bs w').0 w (sys.write c.fd bs w').1 empty at
        (Accepts-from c.fd bs (sys.write c.fd bs w').0 _ h (laws.write_accepts c.fd bs w'))

  -- Write on a connection that belongs to a poller, and that waits for a writable socket if it has
  -- bytes left: on every branch of the call the socket's stream with what waits behind it grows by
  -- the bytes that the call reports as taken and by nothing else, and the connection stays such. The
  -- branches are a queueing connection, a socket that takes all, a part or nothing, one that fails,
  -- and one that cannot be made blocking.
  pub write-Extends :
      (c : BaseConnect) (bs : Bytes) (w : W) → IsQueued c → Extends sent c w bs (write sys c bs w)
  unfolding write push
  write-Extends c bs w v = elim (Bool-cases (is_out c.state)) [
    | inl queueing ↦ rw queueing (
      ground (
        arith,
        pending-push c.write_buff c.write_q.inner bs,
        take_all (length bs) bs,
        append_assoc (sent c.fd w) (pending c) bs,
      ),
      record { attached = v.attached; drained = ground arith },
    )
    | inr direct ↦ rw direct (
        write_direct-Extends c bs (make_blocking sys c w).0 w _ (v.drained direct) v.attached
          (make_blocking-sent c w))
  ]
