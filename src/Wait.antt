-- ===== src/Wait.antt =====
-- eventloop/epoll.go, Wait: what a poller does for each event. A connection is a pointer in the source,
-- which the manager's map shares: here its new state is written back to the map.
pub mod Routers
pub mod Websockets
pub mod Frame
pub mod Codes
pub mod Serving
pub mod Served
pub mod Steps
pub mod Decoded
pub mod Events
pub mod Turns
pub mod Datagrams
pub mod Handed
pub mod Delivers
use netman.Common.{
  ℕ, zero, suc, Bool, true, false, not, ◌&&◌, Option, none, some, List, [], ◌∷◌, ◌++◌, Bytes, leb,
  ◌==◌, if◌then◌else◌,
}
use netman.Errors.{
  Errno, eagain, eintr, Error, eof, errno, tls_error, head_bytes_length_fail, body_len_exceed_limit,
  websocket_opcode_fail, websocket_rsv_fail, websocket_ping_payload_oversize,
  websocket_ctrl_message_must_not_fragmented, websocket_must_utf8, websocket_protocol_error,
  Outcome, nothing, packet, fail, crash, stuck,
}
use netman.Kernel.{Sys, Event, WaitResult, ready, wait_failed, Call, returns, panics}
use netman.Epoll
use netman.Epoll.{Poller}
use netman.Util.Message
use netman.Util.Message.{Message}
use netman.Manager.{
  ConnectManager, Connect, Ended, ended, blocked, panicked, ◌>>=◌, of_lock, lookup, store, get,
  clear_by_ep_fd,
}

-- What a poller does about DecodePacket's error: close the connection, send a close frame with a code
-- first, or leave it to the transport.
pub data Reaction : Type 0 where
  hang_up : Reaction
  close_with : ℕ → Reaction
  if_udp : Reaction

-- The switch on the error.
unfoldable pub reaction : Error → Reaction
reaction eof = hang_up
reaction head_bytes_length_fail = hang_up
reaction body_len_exceed_limit = hang_up
reaction websocket_opcode_fail = close_with 1002
reaction websocket_rsv_fail = close_with 1002
reaction websocket_ctrl_message_must_not_fragmented = close_with 1002
reaction websocket_protocol_error = close_with 1002
reaction websocket_ping_payload_oversize = close_with 1002
reaction websocket_must_utf8 = close_with 1007
reaction e = if_udp

-- iface.IConnect with iface.IConnectEvent and iface.IWebsocketCloser, as far as a poller calls them.
-- The calls return the connection's new state; `handshake` is that of the TLS layer, and `close_code`
-- panics on a connection that is no websocket, where the type assertion fails.
pub record Session (C W : Type 0) : Type 0 where
  pub connect : Connect C W
  pub open connect use *
  pub tls_pending : C → Bool
  pub is_udp : C → Bool
  pub handshake : C → W → Option Error × C × W
  pub set_handshake_completed : C → C
  pub set_last_message_time : C → ℕ → C
  pub proceed_write : C → W → Call (Option Error) × C × W
  pub decode_packet : C → ConnectManager C → W → Ended (Outcome Message × C × ConnectManager C × W)
  pub close_code : C → ℕ → ConnectManager C → W → Ended (ConnectManager C × W)

-- The state behind the pointer: the map's entry, while it is there.
abbrev pub write_back : {C : Type 0} → ℕ → C → Option C → ConnectManager C → ConnectManager C
write_back fd c none m = m
write_back fd c (some old) m = record m { connects = store fd c m.connects }

unfoldable pub refresh : {C : Type 0} → ℕ → C → ConnectManager C → ConnectManager C
refresh fd c m = write_back fd c (lookup fd m.connects) m

-- What an event leads to: perhaps a message for the channel with its connection, and the state.
abbrev pub Handled : Type 0 → Type 0 → Type 0
Handled C W = Ended (Option (C × Message) × ConnectManager C × W)

abbrev pub listed : {A : Type 0} → Option A → List A
listed none = []
listed (some x) = x ∷ []

module _ {C W : Type 0} where
  abbrev pub silently : Ended (ConnectManager C × W) → Handled C W
  silently r = r >>= λ (m, w). ended (none, m, w)

-- Where the loop of Wait is, with the messages for the channel: it goes on, or has ended.
pub data Round (C W : Type 0) : Type 0 where
  next left : List (C × Message) → ConnectManager C → W → Round C W

module _ {C W : Type 0} where
  abbrev pub preceded : List (C × Message) → Round C W → Round C W
  preceded sent (next later m w) = next (sent ++ later) m w
  preceded sent (left later m w) = left (sent ++ later) m w

module _ {C W : Type 0} (sys : Sys W) (ses : Session C W) where
  -- A writable event, once ProceedWrite returned.
  unfoldable pub after_write : ℕ → Call (Option Error) → C → ConnectManager C → W → Handled C W
  unfolding refresh
  after_write fd panics c m w = panicked
  after_write fd (returns none) c m w = ended (none, refresh fd c m, w)
  after_write fd (returns (some e)) c m w = silently (ses.close c (refresh fd c m) w)

  unfoldable pub on_writable : ℕ → C → ConnectManager C → W → Handled C W
  on_writable fd c m w = let (r, c', w') = ses.proceed_write c w in after_write fd r c' m w'

  unfoldable pub react : Reaction → ℕ → C → ConnectManager C → W → Handled C W
  react hang_up fd c m w = silently (ses.close c m w)
  react (close_with code) fd c m w = silently (ses.close_code c code m w)
  react if_udp fd c m w = if ses.is_udp c then silently (ses.close c m w) else ended (none, m, w)

module _ {C W : Type 0} (sys : Sys W) (ses : Session C W) (clock : W → ℕ) where
  -- After DecodePacket. `clock` is the time that NewRequest asks for.
  unfoldable pub after_decode : ℕ → Outcome Message → C → ConnectManager C → W → Handled C W
  unfolding refresh Message.len Message.is_websocket
  after_decode fd nothing c m w = ended (none, refresh fd c m, w)
  after_decode fd (packet msg) c m w =
      if leb (Message.len msg) 0 && not (Message.is_websocket msg)
      then ended (none, refresh fd c m, w)
      else (let c' = ses.set_last_message_time c (clock w) in
          ended (some (c', msg), refresh fd c' m, w))
  after_decode fd (fail e) c m w = react sys ses (reaction e) fd c (refresh fd c m) w
  after_decode fd crash c m w = panicked
  after_decode fd stuck c m w = blocked

  unfoldable pub decode : ℕ → C → ConnectManager C → W → Handled C W
  decode fd c m w = ses.decode_packet c m w >>= λ (o, c', m', w'). after_decode fd o c' m' w'

  -- After the TLS handshake.
  unfoldable pub after_handshake : ℕ → Option Error → C → ConnectManager C → W → Handled C W
  after_handshake fd (some e) c m w = silently (ses.close c (refresh fd c m) w)
  after_handshake fd none c m w =
      let c' = ses.set_handshake_completed c in
      let (e, w') = sys.set_nonblock fd true w in
      elim e [ some x ↦ silently (ses.close c' (refresh fd c' m) w') | none ↦ decode fd c' m w' ]

  -- A readable event.
  unfoldable pub on_readable : ℕ → C → ConnectManager C → W → Handled C W
  on_readable fd c m w =
      if ses.tls_pending c
      then (let (e, c', w') = ses.handshake c w in after_handshake fd e c' m w')
      else decode fd c m w

  -- An event, once the connection was looked up; a descriptor without a connection is closed.
  unfoldable pub on_event : Poller → Event → Option C → ConnectManager C → W → Handled C W
  unfolding Epoll.remove
  on_event p ev none m w =
      let (_, w₁) = sys.close ev.fd w in ended (none, m, (Epoll.remove sys p ev.fd w₁).1)
  on_event p ev (some c) m w =
      if ev.is_out then on_writable sys ses ev.fd c m w else on_readable ev.fd c m w

  unfoldable pub handle : Poller → Event → ConnectManager C → W → Handled C W
  handle p ev m w = of_lock (get m ev.fd) >>= λ c. on_event p ev c m w

  -- The loop over the events of one epoll_wait, with what goes to the channel, in order.
  unfoldable pub handle_all :
      Poller → List Event → ConnectManager C → W → Ended (List (C × Message) × ConnectManager C × W)
  handle_all p [] m w = ended ([], m, w)
  handle_all p (ev ∷ evs) m w = handle p ev m w >>= λ (sent, m₁, w₁).
      handle_all p evs m₁ w₁ >>= λ (rest, m₂, w₂). ended (listed sent ++ rest, m₂, w₂)

  -- One turn of the loop of Wait, once epoll_wait returned.
  unfoldable pub after_wait : Poller → WaitResult → ConnectManager C → W → Ended (Round C W)
  after_wait p (wait_failed eagain) m w = ended (next [] m w)
  after_wait p (wait_failed eintr) m w = ended (next [] m w)
  after_wait p (wait_failed e) m w =
      clear_by_ep_fd sys ses.connect m p.epfd w >>= λ (m', w'). ended (left [] m' w')
  after_wait p (ready evs) m w = handle_all p evs m w >>= λ (sent, m', w'). ended (next sent m' w')

  -- Wait, for as many turns of its loop at most.
  unfoldable pub wait :
      (ℕ → W → WaitResult × W) → ℕ → Poller → ConnectManager C → W → Ended (Round C W)
  wait epoll_wait zero p m w = ended (next [] m w)
  wait epoll_wait (suc turns) p m w =
      let (r, w₁) = epoll_wait p.epfd w in
      after_wait p r m w₁ >>= λ round. elim round [
        | left sent m' w' ↦ ended (left sent m' w')
        | next sent m' w' ↦ wait epoll_wait turns p m' w' >>= λ later. ended (preceded sent later)
      ]
