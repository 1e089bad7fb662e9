-- ===== src/Kqueue/Same.antt =====
-- eventloop/kqueue.go and eventloop/epoll.go: the two loops of Wait are one, on a system that makes
-- epoll's registrations with the queue.
use netman.Common.{
  ℕ, zero, suc, ◌≡◌, refl, sym, subst, ◌∙◌, Bytes, Option, none, some, List, [], ◌∷◌, map, ap, ap₂,
  fun_ext, if◌then◌else◌, true,
}
use netman.Errors.{
  eagain, eintr, ebadf, epipe, other, Error, eof, unexpected_eof, errno, tls_error,
  head_bytes_length_fail, router_not_found, body_len_exceed_limit, tls_handshake_un_finish,
  websocket_opcode_fail, websocket_rsv_fail, websocket_ping_payload_oversize,
  websocket_ctrl_message_must_not_fragmented, websocket_must_utf8, websocket_protocol_error,
  udp_acceptor_from, udp_not_packet, udp_not_complete, unpack_message, udp_socket_setup, Outcome,
  nothing, packet, fail, crash, stuck,
}
use netman.Kernel.{Sys, Event, WaitResult, ready, Call, returns, panics}
use netman.Kernel
use netman.Epoll.{Poller}
use netman.Host.{Host}
use netman.Util.Message.{Message}
use netman.Util.DataPack.{DataPacker}
use netman.Connect.Tls.{Tls, read_data}
use netman.Connect.Order.{WriteLaws}
use netman.Manager.{
  ConnectManager, Ended, ended, blocked, panicked, ◌>>=◌, of_lock, get, clear_by_ep_fd,
}
use netman.Router.{RouterProtocol}
use netman.Router.Stream.{StreamLaws}
use netman.Wait as Epolls
use netman.Wait.{Session, Handled, Round, next, left, preceded, listed}
use netman.Wait.Served.{IsServing, TlsLaws, sessions}
use netman.Wait.Turns.{ServesRound, wait_serves}
use netman.Kqueue.{Kevent, on_kqueue, register, remove}
use netman.Kqueue.Waiting.{
  Occurrence, Waited, occurred, wait_failed, is_write, on_error, after_write, proceed_write,
  after_decode, decode, after_handshake, proceed_read, on_occurrence, handle, handle_all,
  after_wait, wait,
}

-- The queue's event as one of epoll.
abbrev pub as_event : Occurrence → Event
as_event ev = record { fd = ev.ident; is_out = is_write ev.filter }

abbrev pub as_waited : Waited → WaitResult
as_waited (occurred evs) = ready (map as_event evs)
as_waited (wait_failed e) = Kernel.wait_failed e

abbrev pub as_epoll_wait : {W : Type 0} → (ℕ → W → Waited × W) → ℕ → W → WaitResult × W
as_epoll_wait occurs q w = (as_waited (occurs q w).0, (occurs q w).1)

module _ {C W : Type 0} (kevent : Kevent W) (sys : Sys W) (ses : Session C W) (clock : W → ℕ) where
  on_error-react :
      (e : Error) (fd : ℕ) (c : C) (m : ConnectManager C) (w : W)
      → on_error ses e c m w ≡ Epolls.react (on_kqueue kevent sys) ses (Epolls.reaction e) fd c m w
  unfolding on_error Epolls.react Epolls.reaction
  on_error-react websocket_opcode_fail fd c m w = refl
  on_error-react websocket_rsv_fail fd c m w = refl
  on_error-react websocket_ctrl_message_must_not_fragmented fd c m w = refl
  on_error-react websocket_protocol_error fd c m w = refl
  on_error-react websocket_ping_payload_oversize fd c m w = refl
  on_error-react websocket_must_utf8 fd c m w = refl
  on_error-react eof fd c m w = refl
  on_error-react head_bytes_length_fail fd c m w = refl
  on_error-react body_len_exceed_limit fd c m w = refl
  on_error-react unexpected_eof fd c m w = refl
  on_error-react tls_error fd c m w = refl
  on_error-react router_not_found fd c m w = refl
  on_error-react tls_handshake_un_finish fd c m w = refl
  on_error-react udp_acceptor_from fd c m w = refl
  on_error-react udp_not_packet fd c m w = refl
  on_error-react udp_not_complete fd c m w = refl
  on_error-react (errno x) fd c m w = refl
  on_error-react (unpack_message x) fd c m w = refl
  on_error-react (udp_socket_setup x) fd c m w = refl

  after_decode-after_decode :
      (fd : ℕ) (o : Outcome Message) (c : C) (m : ConnectManager C) (w : W)
      → after_decode sys ses clock fd o c m w
        ≡ Epolls.after_decode (on_kqueue kevent sys) ses clock fd o c m w
  unfolding after_decode Epolls.after_decode
  after_decode-after_decode fd nothing c m w = refl
  after_decode-after_decode fd (packet msg) c m w = refl
  after_decode-after_decode fd (fail e) c m w = on_error-react e fd c (Epolls.refresh fd c m) w
  after_decode-after_decode fd crash c m w = refl
  after_decode-after_decode fd stuck c m w = refl

  decode-decode :
      (fd : ℕ) (c : C) (m : ConnectManager C) (w : W)
      → decode sys ses clock fd c m w ≡ Epolls.decode (on_kqueue kevent sys) ses clock fd c m w
  unfolding decode Epolls.decode
  decode-decode fd c m w =
      ap (◌>>=◌ (ses.decode_packet c m w))
        (fun_ext (λ r. after_decode-after_decode fd r.0 r.1 r.2 r.3))

  after_handshake-after_handshake :
      (fd : ℕ) (e : Option Error) (c : C) (m : ConnectManager C) (w : W)
      → after_handshake sys ses clock fd e c m w
        ≡ Epolls.after_handshake (on_kqueue kevent sys) ses clock fd e c m w
  unfolding after_handshake Epolls.after_handshake
  after_handshake-after_handshake fd (some e) c m w = refl
  after_handshake-after_handshake fd none c m w =
      let c' = ses.set_handshake_completed c in
      let (e, w') = sys.set_nonblock fd true w in
      ap
        (λ (r : Handled C W). elim e as (λ x. Handled C W) [
          | some x ↦ Epolls.silently (ses.close c' (Epolls.refresh fd c' m) w')
          | none ↦ r
        ])
        (decode-decode fd c' m w')

  proceed_read-on_readable :
      (fd : ℕ) (c : C) (m : ConnectManager C) (w : W)
      → proceed_read sys ses clock fd c m w
        ≡ Epolls.on_readable (on_kqueue kevent sys) ses clock fd c m w
  unfolding proceed_read Epolls.on_readable
  proceed_read-on_readable fd c m w =
      let (e, c', w') = ses.handshake c w in
      ap₂ (λ (x y : Handled C W). if ses.tls_pending c then x else y)
        (after_handshake-after_handshake fd e c' m w') (decode-decode fd c m w)

  proceed_write-on_writable :
      (fd : ℕ) (r : Call (Option Error)) (c : C) (m : ConnectManager C) (w : W)
      → after_write ses fd r c m w ≡ Epolls.after_write (on_kqueue kevent sys) ses fd r c m w
  unfolding after_write Epolls.after_write
  proceed_write-on_writable fd panics c m w = refl
  proceed_write-on_writable fd (returns none) c m w = refl
  proceed_write-on_writable fd (returns (some e)) c m w = refl

  on_occurrence-on_event :
      (p : Poller) (ev : Occurrence) (c : Option C) (m : ConnectManager C) (w : W)
      → on_occurrence sys ses clock p ev c m w
        ≡ Epolls.on_event (on_kqueue kevent sys) ses clock p (as_event ev) c m w
  unfolding on_occurrence Epolls.on_event register remove proceed_write Epolls.on_writable
  on_occurrence-on_event p ev none m w = refl
  on_occurrence-on_event p ev (some c) m w =
      let (r, c', w') = ses.proceed_write c w in
      ap₂ (λ (x y : Handled C W). if is_write ev.filter then x else y)
        (proceed_write-on_writable ev.ident r c' m w') (proceed_read-on_readable ev.ident c m w)

  handle-handle :
      (p : Poller) (ev : Occurrence) (m : ConnectManager C) (w : W)
      → handle sys ses clock p ev m w
        ≡ Epolls.handle (on_kqueue kevent sys) ses clock p (as_event ev) m w
  unfolding handle Epolls.handle
  handle-handle p ev m w =
      ap (◌>>=◌ (of_lock (get m ev.ident))) (fun_ext (λ c. on_occurrence-on_event p ev c m w))

  handle_all-handle_all :
      (p : Poller) (evs : List Occurrence) (m : ConnectManager C) (w : W)
      → handle_all sys ses clock p evs m w
        ≡ Epolls.handle_all (on_kqueue kevent sys) ses clock p (map as_event evs) m w
  unfolding handle_all Epolls.handle_all
  handle_all-handle_all p [] m w = refl
  handle_all-handle_all p (ev ∷ evs) m w = simp (handle-handle, handle_all-handle_all p evs)

  after_wait-after_wait :
      (p : Poller) (r : Waited) (m : ConnectManager C) (w : W)
      → after_wait sys ses clock p r m w
        ≡ Epolls.after_wait (on_kqueue kevent sys) ses clock p (as_waited r) m w
  unfolding after_wait Epolls.after_wait clear_by_ep_fd
  after_wait-after_wait p (wait_failed eagain) m w = refl
  after_wait-after_wait p (wait_failed eintr) m w = refl
  after_wait-after_wait p (wait_failed ebadf) m w = refl
  after_wait-after_wait p (wait_failed epipe) m w = refl
  after_wait-after_wait p (wait_failed other) m w = refl
  after_wait-after_wait p (occurred evs) m w = rw (handle_all-handle_all p evs m w)

  abbrev then_turn : (ConnectManager C → W → Ended (Round C W)) → Round C W → Ended (Round C W)
  then_turn more (left sent m w) = ended (left sent m w)
  then_turn more (next sent m w) = more m w >>= λ later. ended (preceded sent later)

  turns_same :
      (f g : ConnectManager C → W → Ended (Round C W)) (r : Ended (Round C W))
      → ((m : ConnectManager C) (w : W) → f m w ≡ g m w)
      → (r >>= then_turn f) ≡ (r >>= then_turn g)
  turns_same f g (ended (left sent m w)) same = refl
  turns_same f g (ended (next sent m w)) same =
      ap (λ x. x >>= λ later. ended (preceded sent later)) (same m w)
  turns_same f g blocked same = refl
  turns_same f g panicked same = refl

  -- Wait of kqueue.go, for any number of turns and over any connections, does what Wait of epoll.go
  -- does for the same events on a system that makes epoll's registrations with the queue.
  pub wait-wait :
      (occurs : ℕ → W → Waited × W) (turns : ℕ) (p : Poller) (m : ConnectManager C) (w : W)
      → wait sys ses clock occurs turns p m w
        ≡ Epolls.wait (on_kqueue kevent sys) ses clock (as_epoll_wait occurs) turns p m w
  unfolding wait Epolls.wait
  wait-wait occurs zero p m w = refl
  wait-wait occurs (suc turns) p m w =
      let (r, w₁) = occurs p.epfd w in
      let system = on_kqueue kevent sys in
      turns_same (wait sys ses clock occurs turns p)
        (Epolls.wait system ses clock (as_epoll_wait occurs) turns p)
        (after_wait sys ses clock p r m w₁) (wait-wait occurs turns p)
      ∙ ap (λ x. x >>= then_turn (Epolls.wait system ses clock (as_epoll_wait occurs) turns p))
          (after_wait-after_wait p r m w₁)

module _ {W : Type 0} (kevent : Kevent W) (sys : Sys W) (tls : Tls W) (d : DataPacker)
    (udp_buffer : ℕ) (host : Host W) (clock : W → ℕ) (sent incoming : ℕ → W → Bytes)
    (writes : WriteLaws (on_kqueue kevent sys) sent)
    (reads : StreamLaws (read_data (on_kqueue kevent sys) tls) incoming)
    (tls_laws : TlsLaws (on_kqueue kevent sys) tls) where
  -- Wait of kqueue.go serves its TCP connections as that of epoll.go does.
  pub kqueue_wait-ServesRound :
      (occurs : ℕ → W → Waited × W) (turns : ℕ) (p : Poller) (m : ConnectManager RouterProtocol)
      (w : W)
      → IsServing m
      → ServesRound (
          wait sys (sessions (on_kqueue kevent sys) tls d udp_buffer host) clock occurs turns p m w)
  kqueue_wait-ServesRound occurs turns p m w s =
      let ses = sessions (on_kqueue kevent sys) tls d udp_buffer host in
      subst ServesRound (sym (wait-wait kevent sys ses clock occurs turns p m w)) (
        wait_serves (on_kqueue kevent sys) tls d udp_buffer host clock sent incoming writes reads
          tls_laws (as_epoll_wait occurs) turns p m w s)
