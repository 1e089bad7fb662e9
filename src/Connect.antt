-- ===== src/Connect.antt =====
-- server/baseconnect.go and common/connect_state.go: the state of a connection, its reads, and its
-- writes through the queue of packets that wait for a writable socket.
pub mod Socket
pub mod Returns
pub mod Order
pub mod Proceed
pub mod Drain
pub mod Tls
pub mod Getters
use netman.Common.{
  ℕ, ◌%◌, Bool, true, false, not, ◌&&◌, Option, none, some, [], Bytes, length, drop, ltb, ◌==◌,
  if◌then◌else◌, ◌≡◌,
}
use netman.Common.Int.{ℤ, pos, negsuc, ◌+ℤ◌}
use netman.Errors.{Errno, Error, eof, errno, ebadf, epipe}
use netman.Kernel.{
  Sys, ReadResult, got, read_failed, WriteResult, wrote, write_failed, Call, returns, panics,
}
use netman.Epoll
use netman.Epoll.{Poller}
use netman.Util.Queue.{Queue, new_queue, push, pop}

pub data ConnectState : Type 0 where
  offline on_line epoll_out epoll_in : ConnectState

-- Only whether the address is a UDP one matters to the code below.
pub record BaseConnect : Type 0 where
  pub id : ℕ
  pub fd : ℕ
  pub epfd : ℕ
  pub is_udp : Bool
  pub has_hooks : Bool
  pub write_buff : Bytes
  pub poller : Option Poller
  pub write_q : Queue Bytes
  pub state : ConnectState
  pub last_message_time : ℕ
  pub tls_enable : Bool
  pub handshake_completed : Bool
  pub tls_raw_size : ℤ
  pub tls_write_packet_size : ℕ

-- newBaseConnect; the TLS layer and the OnOpen goroutine belong to the outside.
unfoldable pub new_base_connect : ℕ → ℕ → Bool → Bool → Bool → ℕ → BaseConnect
unfolding new_queue
new_base_connect id fd is_udp has_hooks tls_enable now = record {
  id = id;
  fd = fd;
  epfd = 0;
  is_udp = is_udp;
  has_hooks = has_hooks;
  write_buff = [];
  poller = none;
  write_q = new_queue;
  state = on_line;
  last_message_time = now;
  tls_enable = tls_enable;
  handshake_completed = false;
  tls_raw_size = pos 0;
  tls_write_packet_size = 0;
}

abbrev pub is_out : ConnectState → Bool
is_out epoll_out = true
is_out offline = false
is_out on_line = false
is_out epoll_in = false

unfoldable pub set_ep_fd : BaseConnect → ℕ → BaseConnect
set_ep_fd c epfd = record c { epfd = epfd }

unfoldable pub set_poller : BaseConnect → Poller → BaseConnect
set_poller c p = record c { poller = some p }

unfoldable pub set_write_buff : BaseConnect → Bytes → BaseConnect
set_write_buff c bs = record c { write_buff = bs }

unfoldable pub set_state : BaseConnect → ConnectState → BaseConnect
set_state c s = record c { state = s }

unfoldable pub set_last_message_time : BaseConnect → ℕ → BaseConnect
set_last_message_time c now = record c { last_message_time = now }

unfoldable pub set_handshake_completed : BaseConnect → BaseConnect
set_handshake_completed c = record c { handshake_completed = true }

-- GetWriteBuff: the bytes to send, and whether there are none left.
unfoldable pub get_write_buff : BaseConnect → Bytes × Bool × BaseConnect
unfolding pop
get_write_buff c =
    if ltb 0 (length c.write_buff)
    then (c.write_buff, false, c)
    else (let (data_pack, q) = pop c.write_q in
        elim data_pack [
          | none ↦ ([], true, record c { write_buff = []; write_q = q })
          | some bs ↦ (bs, false, record c { write_buff = bs; write_q = q })
        ])

-- Read, what follows the system call. It counts the raw bytes once the TLS handshake is over, and
-- takes no bytes for the end of the stream.
unfoldable pub after_read : BaseConnect → ReadResult → Bytes × Option Error × BaseConnect
after_read c (read_failed e) = ([], some (errno e), c)
after_read c (got bs) =
    let c' =
      if c.handshake_completed
      then record c { tls_raw_size = c.tls_raw_size +ℤ pos (length bs) }
      else c in
    if length bs == 0 then ([], some eof, c') else (bs, none, c')

-- ProceedWrite, what follows ModRead.
unfoldable pub sync_readable : BaseConnect → Option Errno → Option Error × BaseConnect
unfolding set_state
sync_readable c (some e) = (some (errno e), c)
sync_readable c none = (none, set_state c epoll_in)

-- ProceedWrite, what follows the write.
unfoldable pub keep_unsent : BaseConnect → Bytes → WriteResult → Option Error × BaseConnect
unfolding set_write_buff
keep_unsent c data_buff (write_failed e) = (some (errno e), c)
keep_unsent c data_buff (wrote n) = (none, set_write_buff c (drop n data_buff))

module _ {W : Type 0} (sys : Sys W) where
  -- Read: the bytes read and the error.
  unfoldable pub read : BaseConnect → ℕ → W → Bytes × Option Error × BaseConnect × W
  read c size w =
      let (r, w') = sys.read c.fd size w in let (bs, e, c') = after_read c r in (bs, e, c', w')

  -- The rest goes to the queue, and the poller waits for a writable socket.
  unfoldable pub await_writable :
      BaseConnect → Bytes → ℕ → W → Call (ℤ × Option Error) × BaseConnect × W
  unfolding push Epoll.mod_write
  await_writable c rest total w =
      let c' = record c { state = epoll_out; write_q = (push c.write_q rest).0 } in
      elim c.poller [
        | none ↦ (panics, c', w)
        | some p ↦ (returns (pos total, none), c', (Epoll.mod_write sys p c.fd c.id w).1)
      ]

  unfoldable pub after_write :
      BaseConnect → Bytes → WriteResult → W → Call (ℤ × Option Error) × BaseConnect × W
  unfolding await_writable
  after_write c bs (write_failed ebadf) w = (returns (negsuc 0, some (errno ebadf)), c, w)
  after_write c bs (write_failed epipe) w = (returns (negsuc 0, some (errno epipe)), c, w)
  after_write c bs (write_failed e) w = await_writable c bs (length bs) w
  after_write c bs (wrote n) w =
      let w' =
        if c.handshake_completed && (n == length bs) then (sys.set_nonblock c.fd true w).1 else w in
      if not (n == length bs) && ltb 0 n
      then await_writable c (drop n bs) (length bs) w'
      else (returns (pos n, none), c, w')

  -- A TLS connection is made blocking for the write.
  unfoldable pub make_blocking : BaseConnect → W → Option Errno × W
  make_blocking c w = if c.handshake_completed then sys.set_nonblock c.fd false w else (none, w)

  -- The Close that Write calls here is BaseConnect's own, which does nothing.
  unfoldable pub write_direct :
      BaseConnect → Bytes → Option Errno → W → Call (ℤ × Option Error) × BaseConnect × W
  unfolding after_write
  write_direct c bs (some e) w = (returns (negsuc 0, some (errno e)), c, w)
  write_direct c bs none w = let (r, w') = sys.write c.fd bs w in after_write c bs r w'

  -- Write.
  unfoldable pub write : BaseConnect → Bytes → W → Call (ℤ × Option Error) × BaseConnect × W
  unfolding push make_blocking write_direct
  write c bs w =
      if is_out c.state
      then (returns (pos (length bs), none), record c { write_q = (push c.write_q bs).0 }, w)
      else (let (e, w') = make_blocking c w in write_direct c bs e w')

  -- ProceedWrite with nothing left to send: the connection is made readable again.
  unfoldable pub proceed_read : BaseConnect → Poller → W → Call (Option Error) × BaseConnect × W
  unfolding Epoll.mod_read
  proceed_read c p w =
      let (r, w₁) = Epoll.mod_read sys p c.fd c.id w in
      let (e, c') = sync_readable c r in (returns e, c', w₁)

  -- ProceedWrite with bytes to send.
  unfoldable pub proceed_send : BaseConnect → Bytes → W → Call (Option Error) × BaseConnect × W
  proceed_send c data_buff w =
      let (r, w₁) = sys.write c.fd data_buff w in
      let (e, c') = keep_unsent c data_buff r in (returns e, c', w₁)

  -- ProceedWrite.
  unfoldable pub proceed_write : BaseConnect → W → Call (Option Error) × BaseConnect × W
  proceed_write c w =
      let (data_buff, empty, c₁) = get_write_buff c in
      if empty
      then elim c₁.poller [ none ↦ (panics, c₁, w) | some p ↦ proceed_read c₁ p w ]
      else proceed_send c₁ data_buff w
