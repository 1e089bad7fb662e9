-- ===== src/Wait/Routers.antt =====
-- server/router.go as a poller sees it.
use netman.Common.{ℕ, not, ◌&&◌}
use netman.Kernel.{Sys}
use netman.Host.{Host}
use netman.Manager.{ended, panicked}
use netman.Connect.{read, write, proceed_write, set_handshake_completed, set_last_message_time}
use netman.Connect.Tls.{Tls}
use netman.Router.{RouterProtocol, decode_packet}
use netman.Router.Layout.{Packer}
use netman.Router.ClearAll.{router_connect}
use netman.Wait.{Session}

module _ {W : Type 0} (sys : Sys W) (tls : Tls W) (p : Packer) (udp_buffer : ℕ) (host : Host W)
    (fuel : ℕ) where
  -- A routerProtocol has no CloseCode.
  abbrev pub router_session : Session RouterProtocol W
  router_session = record {
    connect = router_connect sys host;
    tls_pending = λ c. c.tls_enable && not c.handshake_completed;
    is_udp = λ c. c.is_udp;
    handshake = λ c w.
        let (e, base', w') = tls.handshake (read sys) (write sys) c.base w in
        (e, record c { base = base' }, w');
    set_handshake_completed = λ c. record c { base = set_handshake_completed c.base };
    set_last_message_time = λ c now. record c { base = set_last_message_time c.base now };
    proceed_write = λ c w.
        let (r, base', w') = proceed_write sys c.base w in (r, record c { base = base' }, w');
    decode_packet = λ c m w.
        let (o, c', w') = decode_packet sys tls p udp_buffer fuel c w in ended (o, c', m, w');
    close_code = λ c code m w. panicked;
  }
