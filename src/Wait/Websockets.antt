-- ===== src/Wait/Websockets.antt =====
-- server/websocket.go as a poller sees it. A websocket connection removes itself from the manager
-- inside DecodePacket and CloseCode: there the manager stands beside the world.
pub mod Shared
pub mod Served
pub mod Events
use netman.Common.{ℕ, not, ◌&&◌, Bool, Option, none, some, Bytes, [], ◌∷◌, ◌==◌, if◌then◌else◌}
use netman.Errors.{Errno, Outcome}
use netman.Kernel.{Sys, Call, returns, panics}
use netman.Epoll
use netman.Host.{Host}
use netman.Util.Message.{Message}
use netman.Connect.{read, write, proceed_write, set_handshake_completed, set_last_message_time}
use netman.Connect.Tls.{Tls}
use netman.Manager as Manager
use netman.Manager.{ConnectManager, Ended, ended, blocked, panicked}
use netman.Websocket.{WebsocketProtocol}
use netman.Websocket.Handshake.{Handshake}
use netman.Websocket.Control as Control
use netman.Websocket.Decode as Decode
use netman.Wait.{Session}

abbrev pub Managed : Type 0
Managed = ConnectManager WebsocketProtocol

-- `none` once a call waits for ever for the manager's lock.
abbrev pub Shared : Type 0 → Type 0
Shared W = Option Managed × W

-- The system's calls do not touch the manager.
abbrev pub beside : {W : Type 0} → Sys W → Sys (Shared W)
beside sys = record {
  read = λ fd size s. let (r, w) = sys.read fd size s.1 in (r, (s.0, w));
  write = λ fd bs s. let (r, w) = sys.write fd bs s.1 in (r, (s.0, w));
  recv_from = λ fd size s. let (r, w) = sys.recv_from fd size s.1 in (r, (s.0, w));
  close = λ fd s. let (e, w) = sys.close fd s.1 in (e, (s.0, w));
  set_nonblock = λ fd b s. let (e, w) = sys.set_nonblock fd b s.1 in (e, (s.0, w));
  epoll_ctl = λ p k fd s. let (e, w) = sys.epoll_ctl p k fd s.1 in (e, (s.0, w));
}

-- Remove, on the manager beside the world.
abbrev pub removed : ℕ → Option Managed → Option Managed
removed fd none = none
removed fd (some m) = Manager.remove m fd

abbrev pub managing : {W : Type 0} → Host W → Host (Shared W)
managing host = record {
  manager_remove = λ fd s. (removed fd s.0, s.1);
  on_close = λ id s. (s.0, host.on_close id s.1);
  handler_open = λ id s. (s.0, host.handler_open id s.1);
  handler_close = λ id s. (s.0, host.handler_close id s.1);
}

-- The texts of the close frames that Wait sends with their codes: "protocol error." and "non-UTF-8 data
-- within a text message".
abbrev pub reason : ℕ → Bytes
reason code =
    if code == 1007
    then 110 ∷ 111 ∷ 110 ∷ 45 ∷ 85 ∷ 84 ∷ 70 ∷ 45 ∷ 56 ∷ 32 ∷ 100 ∷ 97 ∷ 116 ∷ 97 ∷ 32 ∷ 119 ∷ 105
      ∷ 116 ∷ 104 ∷ 105 ∷ 110 ∷ 32 ∷ 97 ∷ 32 ∷ 116 ∷ 101 ∷ 120 ∷ 116 ∷ 32 ∷ 109 ∷ 101 ∷ 115 ∷ 115
      ∷ 97 ∷ 103 ∷ 101 ∷ []
    else 112 ∷ 114 ∷ 111 ∷ 116 ∷ 111 ∷ 99 ∷ 111 ∷ 108 ∷ 32 ∷ 101 ∷ 114 ∷ 114 ∷ 111 ∷ 114 ∷ 46 ∷ []

module _ {W : Type 0} where
  abbrev pub closing : Call (Option Errno) × WebsocketProtocol × Shared W → Ended (Managed × W)
  closing (panics, c, (m, w)) = panicked
  closing (returns e, c, (none, w)) = blocked
  closing (returns e, c, (some m, w)) = ended (m, w)

  abbrev pub decoded :
      Outcome Message × WebsocketProtocol × Shared W
      → Ended (Outcome Message × WebsocketProtocol × Managed × W)
  decoded (o, c, (none, w)) = blocked
  decoded (o, c, (some m, w)) = ended (o, c, m, w)

module _ {W : Type 0} (sys : Sys W) (tls : Tls (Shared W)) (host : Host W)
    (utf8_valid : Bytes → Bool) (max_slice : ℕ) (hs : Handshake) where
  abbrev pub websocket_session : Session WebsocketProtocol W
  websocket_session = record {
    connect = record {
      fd = λ c. c.fd;
      epfd = λ c. c.epfd;
      last_message_time = λ c. c.last_message_time;
      epoll_remove = λ c w. elim c.poller [ none ↦ w | some p ↦ (Epoll.remove sys p c.fd w).1 ];
      close = λ c m w. closing (Control.close (beside sys) tls (managing host) c (some m, w));
    };
    tls_pending = λ c. c.tls_enable && not c.handshake_completed;
    is_udp = λ c. c.is_udp;
    handshake = λ c w.
        let (e, base', s) =
          tls.handshake (read (beside sys)) (write (beside sys)) c.base (none, w) in
        (e, record c { base = base' }, s.1);
    set_handshake_completed = λ c. record c { base = set_handshake_completed c.base };
    set_last_message_time = λ c now. record c { base = set_last_message_time c.base now };
    proceed_write = λ c w.
        let (r, base', w') = proceed_write sys c.base w in (r, record c { base = base' }, w');
    decode_packet = λ c m w. decoded (
        Decode.decode_packet (beside sys) tls (managing host) utf8_valid max_slice hs c
          (some m, w));
    close_code = λ c code m w.
        closing
          (Control.close_code (beside sys) tls (managing host) c code (reason code) (some m, w));
  }
