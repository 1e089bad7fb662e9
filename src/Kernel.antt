-- ===== src/Kernel.antt =====
-- What the program takes from outside its repository: the system calls of golang.org/x/sys/unix, and
-- the application's callbacks. `W` is the state of that outside world, and every call returns a new
-- one. unix.Read and unix.Write return (-1, errno) or (n, nil).
use netman.Common.{ℕ, Bool, Option, List, Bytes}
use netman.Errors.{Errno}

pub data ReadResult : Type 0 where
  got : Bytes → ReadResult
  read_failed : Errno → ReadResult

pub data WriteResult : Type 0 where
  wrote : ℕ → WriteResult
  write_failed : Errno → WriteResult

-- recvfrom(2): the bytes of one datagram that fit the buffer.
pub data RecvResult : Type 0 where
  datagram : Bytes → RecvResult
  recv_failed : Errno → RecvResult

-- What an epoll instance watches a descriptor for: EPOLLIN | EPOLLPRI, or EPOLLOUT.
pub data Interest : Type 0 where
  in_pri out : Interest

-- The number is the connection's id, which the program keeps in the event's padding.
pub data Control : Type 0 where
  ctl_add ctl_mod : Interest → ℕ → Control
  ctl_del : Control

pub record Sys (W : Type 0) : Type 0 where
  -- descriptor, size of the buffer
  pub read : ℕ → ℕ → W → ReadResult × W
  pub write : ℕ → Bytes → W → WriteResult × W
  -- descriptor, size of the buffer
  pub recv_from : ℕ → ℕ → W → RecvResult × W
  pub close : ℕ → W → Option Errno × W
  -- descriptor, whether to make it non-blocking
  pub set_nonblock : ℕ → Bool → W → Option Errno × W
  -- epoll descriptor, operation, descriptor
  pub epoll_ctl : ℕ → Control → ℕ → W → Option Errno × W

-- A call that returns, or that panics on a nil pointer.
pub data Call {ℓ} (A : Type ℓ) : Type ℓ where
  returns : A → Call A
  panics : Call A

-- epoll_create1(2).
pub data CreateResult : Type 0 where
  created : ℕ → CreateResult
  create_failed : Errno → CreateResult

-- epoll_wait(2): the descriptors that are ready. The flag says whether EPOLLOUT is among the events.
pub record Event : Type 0 where
  pub fd : ℕ
  pub is_out : Bool

pub data WaitResult : Type 0 where
  ready : List Event → WaitResult
  wait_failed : Errno → WaitResult

-- accept(2): the new connection's descriptor; the peer's address is of no matter here.
pub data AcceptResult : Type 0 where
  accepted : ℕ → AcceptResult
  accept_failed : Errno → AcceptResult

-- The calls of an acceptor. `event` is eventfd(2), `no_delay` sets TCP_NODELAY.
pub record Net (W : Type 0) : Type 0 where
  pub event : W → CreateResult × W
  pub epoll_create : W → CreateResult × W
  pub epoll_wait : ℕ → W → WaitResult × W
  pub accept : ℕ → W → AcceptResult × W
  pub no_delay : ℕ → W → Option Errno × W
