-- ===== src/Server/Started.antt =====
-- server/server.go, Start.
use netman.Common.{ℕ, ◌≡◌, refl, sym, subst, none}
use netman.Kernel.{Sys, Net, ctl_add, in_pri}
use netman.Host.{Host}
use netman.Connect.{BaseConnect}
use netman.Manager.{ConnectManager, Ended, ended, blocked, panicked, ◌>>=◌}
use netman.Dispatch.{router_mode, resolve_group}
use netman.Router.{RouterProtocol}
use netman.Acceptor.{Acceptor, Run, run}
use netman.Acceptor.Serves.{router_protocols}
use netman.Acceptor.Listening.{ServesRun, run-ServesRun}
use netman.Router.ClearAll.{router_connect}
use netman.Wait.Served.{IsServing}
use netman.Server.Created.{IsReady}
use netman.Server.{Server, started, start, start_from, accept_options}

module _ {O Ctx W V : Type 0} (sys : Sys W) (net : Net W) (host : Host W)
    (websocket : BaseConnect → RouterProtocol) (clock : W → ℕ) where
  -- A call of Start that neither waits for ever nor panics, and leaves a serving manager.
  abbrev pub StartServes : Ended (Run × Server O Ctx RouterProtocol W V × W) → Type 0
  StartServes (ended (r, s, w)) = IsServing s.connect_mgr × (s.status ≡ started)
  StartServes blocked = ⊥
  StartServes panicked = ⊥

  ran-StartServes :
      (s : Server O Ctx RouterProtocol W V)
      (r : Ended (Run × Acceptor × ConnectManager RouterProtocol × W))
      → s.status ≡ started
      → ServesRun r
      → StartServes
          (r >>= λ (r', a, m, w). ended (r', record s { acceptor = a; connect_mgr = m }, w))
  ran-StartServes s (ended (r, a, m, w)) e h = (h, e)
  ran-StartServes s blocked e h = h
  ran-StartServes s panicked e h = h

  -- Start of a server in router mode that has not started, with a poller for every id, registrations
  -- that succeed and served connections: for any number of turns of the acceptor's loop it neither
  -- panics nor waits for ever on the manager's lock, whatever is accepted and whatever fails, and the
  -- connections are still served.
  pub start-serves :
      (turns : ℕ) (s : Server O Ctx RouterProtocol W V) (w : W)
      → s.options.application ≡ router_mode
      → IsReady s
      → ((epfd id fd : ℕ) (w' : W) → (sys.epoll_ctl epfd (ctl_add in_pri id) fd w').0 ≡ none)
      → StartServes (
          start sys net
            (router_connect sys host)
            (router_protocols sys host websocket)
            clock
            turns
            s
            w)
  unfolding start
  start-serves turns s w mode v registers =
      let s' : Server O Ctx RouterProtocol W V = record s {
        status = started;
        router_mgr = resolve_group s.router_mgr;
      } in
      let options = accept_options s.options in
      let protocols = router_protocols sys host websocket in
      subst
        (λ st.
          StartServes (start_from sys net (router_connect sys host) protocols clock st turns s w))
        (sym v.at_rest)
        (ran-StartServes s'
          (run sys net protocols options clock s.eventloop turns s.socket s.acceptor s.connect_mgr
            w)
          refl
          (run-ServesRun sys net host websocket options clock s.eventloop mode
            (record { polled = v.polled; registers = registers }) turns s.socket s.acceptor
            s.connect_mgr w v.serving))
