-- ===== src/Wait/Turns.antt =====
-- eventloop/epoll.go, Wait, over server/router.go: the loop.
use netman.Common.{ℕ, Bytes}
use netman.Kernel.{Sys, WaitResult}
use netman.Epoll.{Poller}
use netman.Host.{Host}
use netman.Util.DataPack.{DataPacker}
use netman.Connect.Tls.{Tls, read_data}
use netman.Connect.Order.{WriteLaws}
use netman.Manager.{ConnectManager, Ended}
use netman.Router.{RouterProtocol}
use netman.Router.Stream.{StreamLaws}
use netman.Wait.{Session, Round, after_wait, wait}
use netman.Wait.Served.{IsServed, IsServing, TlsLaws, sessions}
use netman.Wait.Events.{router_serving}
use netman.Wait.Serving.Loop
use netman.Wait.Serving.Loop.{after_wait-Serves, wait-Serves}

-- A loop that did not stop for ever and did not panic, with a serving manager.
abbrev pub ServesRound : {W : Type 0} → Ended (Round RouterProtocol W) → Type 0
ServesRound r = Loop.ServesRound IsServed ⊥ r

module _ {W : Type 0} (sys : Sys W) (tls : Tls W) (d : DataPacker) (udp_buffer : ℕ) (host : Host W)
    (clock : W → ℕ) (sent incoming : ℕ → W → Bytes) (writes : WriteLaws sys sent)
    (reads : StreamLaws (read_data sys tls) incoming) (tls_laws : TlsLaws sys tls) where
  abbrev turn_session : Session RouterProtocol W
  turn_session = sessions sys tls d udp_buffer host

  pub after_wait-ServesRound :
      (p : Poller) (r : WaitResult) (m : ConnectManager RouterProtocol) (w : W)
      → IsServing m
      → ServesRound (after_wait sys turn_session clock p r m w)
  after_wait-ServesRound =
      after_wait-Serves sys turn_session clock IsServed (λ c m w. ⊥)
        (router_serving sys tls d udp_buffer host clock sent incoming writes reads tls_laws) ⊥
        (λ c m w none. none)

  -- Wait, for any number of turns of its loop, on a manager whose lock is free and that holds stream
  -- connections, one for each descriptor and each under its own, each of which belongs to a poller,
  -- waits for a writable socket if it has bytes left, and is between two packets or inside one: the
  -- loop neither panics nor waits for ever on the lock, whatever the events, the reads, the writes
  -- and the errors are, and the manager is still such.
  pub wait_serves :
      (epoll_wait : ℕ → W → WaitResult × W) (turns : ℕ) (p : Poller)
      (m : ConnectManager RouterProtocol) (w : W)
      → IsServing m
      → ServesRound (wait sys turn_session clock epoll_wait turns p m w)
  wait_serves =
      wait-Serves sys turn_session clock IsServed (λ c m w. ⊥)
        (router_serving sys tls d udp_buffer host clock sent incoming writes reads tls_laws) ⊥
        (λ c m w none. none)
