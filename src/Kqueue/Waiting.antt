-- ===== src/Kqueue/Waiting.antt =====
-- eventloop/kqueue.go: NewPoller, and Wait.
use netman.Common.{
  ℕ, zero, suc, Bool, true, false, Option, none, some, List, [], ◌∷◌, ◌++◌, leb, not, ◌&&◌,
  if◌then◌else◌,
}
use netman.Errors.{
  Errno, eagain, eintr, Error, eof, head_bytes_length_fail, body_len_exceed_limit,
  websocket_opcode_fail, websocket_rsv_fail, websocket_ping_payload_oversize,
  websocket_ctrl_message_must_not_fragmented, websocket_must_utf8, websocket_protocol_error,
  Outcome, nothing, packet, fail, crash, stuck,
}
use netman.Kernel.{Sys, CreateResult, created, create_failed, Call, returns, panics}
use netman.Epoll.{Poller}
use netman.Util.Message
use netman.Util.Message.{Message}
use netman.Manager.{
  ConnectManager, Ended, ended, blocked, panicked, ◌>>=◌, of_lock, get, clear_by_ep_fd,
}
use netman.Wait.{Session, Handled, Round, next, left, preceded, listed, silently, refresh}
use netman.Kqueue.{Filter, evfilt_read, evfilt_write, remove}

-- NewPoller, from kqueue(2)'s result on.
unfoldable pub new_poller : CreateResult → Option Poller
new_poller (create_failed e) = none
new_poller (created epfd) = some (record { epfd = epfd })

-- unix.Kevent_t, as the queue returns it.
pub record Occurrence : Type 0 where
  pub ident : ℕ
  pub filter : Filter

-- unix.Kevent without changes.
pub data Waited : Type 0 where
  occurred : List Occurrence → Waited
  wait_failed : Errno → Waited

abbrev pub is_write : Filter → Bool
is_write evfilt_read = false
is_write evfilt_write = true

module _ {C W : Type 0} (ses : Session C W) where
  -- The switch on DecodePacket's error.
  unfoldable pub on_error : Error → C → ConnectManager C → W → Handled C W
  on_error eof c m w = silently (ses.close c m w)
  on_error head_bytes_length_fail c m w = silently (ses.close c m w)
  on_error body_len_exceed_limit c m w = silently (ses.close c m w)
  on_error websocket_opcode_fail c m w = silently (ses.close_code c 1002 m w)
  on_error websocket_rsv_fail c m w = silently (ses.close_code c 1002 m w)
  on_error websocket_ctrl_message_must_not_fragmented c m w = silently (ses.close_code c 1002 m w)
  on_error websocket_protocol_error c m w = silently (ses.close_code c 1002 m w)
  on_error websocket_ping_payload_oversize c m w = silently (ses.close_code c 1002 m w)
  on_error websocket_must_utf8 c m w = silently (ses.close_code c 1007 m w)
  on_error e c m w = if ses.is_udp c then silently (ses.close c m w) else ended (none, m, w)

  -- A writable event, once ProceedWrite returned.
  unfoldable pub after_write : ℕ → Call (Option Error) → C → ConnectManager C → W → Handled C W
  unfolding refresh
  after_write fd panics c m w = panicked
  after_write fd (returns none) c m w = ended (none, refresh fd c m, w)
  after_write fd (returns (some e)) c m w = silently (ses.close c (refresh fd c m) w)

  unfoldable pub proceed_write : ℕ → C → ConnectManager C → W → Handled C W
  unfolding after_write
  proceed_write fd c m w = let (r, c', w') = ses.proceed_write c w in after_write fd r c' m w'

module _ {C W : Type 0} (sys : Sys W) (ses : Session C W) (clock : W → ℕ) where
  -- After DecodePacket, the message included. `clock` is the time that NewRequest asks for.
  unfoldable pub after_decode : ℕ → Outcome Message → C → ConnectManager C → W → Handled C W
  unfolding refresh on_error Message.len Message.is_websocket
  after_decode fd nothing c m w = ended (none, refresh fd c m, w)
  after_decode fd (packet msg) c m w =
      if leb (Message.len msg) 0 && not (Message.is_websocket msg)
      then ended (none, refresh fd c m, w)
      else (let c' = ses.set_last_message_time c (clock w) in
          ended (some (c', msg), refresh fd c' m, w))
  after_decode fd (fail e) c m w = on_error ses e c (refresh fd c m) w
  after_decode fd crash c m w = panicked
  after_decode fd stuck c m w = blocked

  unfoldable pub decode : ℕ → C → ConnectManager C → W → Handled C W
  decode fd c m w = ses.decode_packet c m w >>= λ (o, c', m', w'). after_decode fd o c' m' w'

  -- After the TLS handshake.
  unfoldable pub after_handshake : ℕ → Option Error → C → ConnectManager C → W → Handled C W
  after_handshake fd (some e) c m w = silently (ses.close c (refresh fd c m) w)
  after_handshake fd none c m w =
      let c' = ses.set_handshake_completed c in
      let (e, w') = sys.set_nonblock fd true w in
      elim e [ some x ↦ silently (ses.close c' (refresh fd c' m) w') | none ↦ decode fd c' m w' ]

  unfoldable pub proceed_read : ℕ → C → ConnectManager C → W → Handled C W
  unfolding after_handshake decode
  proceed_read fd c m w =
      if ses.tls_pending c
      then (let (e, c', w') = ses.handshake c w in after_handshake fd e c' m w')
      else decode fd c m w

  unfoldable pub on_occurrence : Poller → Occurrence → Option C → ConnectManager C → W → Handled C W
  unfolding remove proceed_read proceed_write
  on_occurrence p ev none m w =
      let (_, w₁) = sys.close ev.ident w in ended (none, m, (remove p ev.ident w₁).1)
  on_occurrence p ev (some c) m w =
      if is_write ev.filter then proceed_write ses ev.ident c m w else proceed_read ev.ident c m w

  unfoldable pub handle : Poller → Occurrence → ConnectManager C → W → Handled C W
  handle p ev m w = of_lock (get m ev.ident) >>= λ c. on_occurrence p ev c m w

  -- The loop over the events of one call of kevent.
  unfoldable pub handle_all :
      Poller
      → List Occurrence
      → ConnectManager C
      → W
      → Ended (List (C × Message) × ConnectManager C × W)
  handle_all p [] m w = ended ([], m, w)
  handle_all p (ev ∷ evs) m w = handle p ev m w >>= λ (sent, m₁, w₁).
      handle_all p evs m₁ w₁ >>= λ (rest, m₂, w₂). ended (listed sent ++ rest, m₂, w₂)

  unfoldable pub after_wait : Poller → Waited → ConnectManager C → W → Ended (Round C W)
  after_wait p (wait_failed eagain) m w = ended (next [] m w)
  after_wait p (wait_failed eintr) m w = ended (next [] m w)
  after_wait p (wait_failed e) m w =
      clear_by_ep_fd sys ses.connect m p.epfd w >>= λ (m', w'). ended (left [] m' w')
  after_wait p (occurred evs) m w =
      handle_all p evs m w >>= λ (sent, m', w'). ended (next sent m' w')

  -- Wait, for as many turns of its loop at most.
  unfoldable pub wait : (ℕ → W → Waited × W) → ℕ → Poller → ConnectManager C → W → Ended (Round C W)
  wait kevent zero p m w = ended (next [] m w)
  wait kevent (suc turns) p m w =
      let (r, w₁) = kevent p.epfd w in
      after_wait p r m w₁ >>= λ round. elim round [
        | left sent m' w' ↦ ended (left sent m' w')
        | next sent m' w' ↦ wait kevent turns p m' w' >>= λ later. ended (preceded sent later)
      ]
