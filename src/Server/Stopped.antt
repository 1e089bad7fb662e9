-- ===== src/Server/Stopped.antt =====
-- server/server.go, Stop: how a server ends.
use netman.Common.{
  ℕ, ◌≡◌, refl, ap, ◌∙◌, true, false, Option, none, some, List, [], ◌∷◌, if_then, if_else,
}
use netman.Kernel.{Sys, Net, Call, returns, panics}
use netman.Epoll
use netman.Epoll.{Poller}
use netman.Host.{Host}
use netman.EventLoop as Loop
use netman.EventLoop.{EventLoop, stop_each}
use netman.Manager.{
  ConnectManager, Connect, Ended, ended, blocked, panicked, ◌>>=◌, clear_all, close_each, lock,
  unlock,
}
use netman.Manager.Heartbeat.{holding}
use netman.Router.{RouterProtocol}
use netman.Router.ClearAll.{router_connect, clear_all_blocks}
use netman.Acceptor.{Protocols, returned, exit}
use netman.Server.{Server, stopping, start, stop, close_rest}

abbrev pub AreMade : List (Option Poller) → Type 0
AreMade [] = Unit {0}
AreMade (none ∷ ps) = ⊥
AreMade (some p ∷ ps) = AreMade ps

stop_each_returns :
    {W : Type 0} (sys : Sys W) (ps : List (Option Poller)) (w : W)
    → AreMade ps
    → (w' : W) × (stop_each sys ps w ≡ returns w')
unfolding stop_each
stop_each_returns sys [] w h = (w, refl)
stop_each_returns sys (none ∷ ps) w h = elim h [ ]
stop_each_returns sys (some p ∷ ps) w h = stop_each_returns sys ps (Epoll.close sys p w).1 h

clear_all_none :
    {C W : Type 0} (sys : Sys W) (con : Connect C W) (m : ConnectManager C) (w : W)
    → m.locked ≡ false
    → m.connects ≡ []
    → clear_all sys con m w ≡ ended (holding [], w)
unfolding clear_all lock unlock close_each
clear_all_none sys con m w free empty = rw free (rw empty refl)

module _ {O Ctx C W V : Type 0} (sys : Sys W) (net : Net W) (con : Connect C W)
    (protocols : Protocols C W) (clock : W → ℕ) where
  close_rest_closed :
      (s : Server O Ctx C W V) (r : Call W)
      → s.emit_closed ≡ true
      → close_rest sys net con protocols clock s r ≡ panicked
  close_rest_closed s panics closed = refl
  close_rest_closed s (returns w) closed = if_then s.emit_closed _ _ closed

  -- What Stop does behind ClearAll.
  abbrev then_close :
      Server O Ctx C W V → Ended (ConnectManager C × W) → Ended (Server O Ctx C W V × W)
  then_close s r = r >>= λ (m, w₁).
      close_rest sys net con protocols clock (record s { status = stopping; connect_mgr = m })
        (Loop.stop sys s.eventloop w₁)

  stop_closed_panics :
      (s : Server O Ctx C W V) (w : W)
      → s.connect_mgr.locked ≡ false
      → s.connect_mgr.connects ≡ []
      → s.emit_closed ≡ true
      → stop sys net con protocols clock s w ≡ panicked
  unfolding stop Loop.stop
  stop_closed_panics s w free empty closed =
      ap (then_close s) (clear_all_none sys con s.connect_mgr w free empty)
      ∙ close_rest_closed (record s { status = stopping; connect_mgr = holding [] })
          (Loop.stop sys s.eventloop w) closed

  -- Stop of a server without connections, whose manager's lock is free, whose pollers are all made and
  -- whose channel is open: it returns, and the server is stopping with its channel closed. After it a
  -- call of Start does nothing, and a second call of Stop panics.
  pub stop_ends :
      (s : Server O Ctx C W V) (w : W)
      → s.connect_mgr.locked ≡ false
      → s.connect_mgr.connects ≡ []
      → s.emit_closed ≡ false
      → AreMade s.eventloop.pollers
      → (s' : Server O Ctx C W V) × (w' : W) × (stop sys net con protocols clock s w
          ≡ ended (s', w'))
        × (s'.status ≡ stopping)
        × (s'.emit_closed ≡ true)
        × ((turns : ℕ) (w₁ : W)
            → start sys net con protocols clock turns s' w₁ ≡ ended (returned, s', w₁))
        × ((w₁ : W) → stop sys net con protocols clock s' w₁ ≡ panicked)
  unfolding stop start Loop.stop
  stop_ends s w free empty not_closed made =
      let (w', pollers) = stop_each_returns sys s.eventloop.pollers w made in
      let s₁ : Server O Ctx C W V = record s { status = stopping; connect_mgr = holding [] } in
      let s' : Server O Ctx C W V = record s₁ { emit_closed = true } in
      (
        s',
        exit sys net s.acceptor (sys.close s.socket w').1,
        ap (then_close s) (clear_all_none sys con s.connect_mgr w free empty)
            ∙ ap (close_rest sys net con protocols clock s₁) pollers
            ∙ if_else s.emit_closed _ _ not_closed,
        refl,
        refl,
        λ turns w₁. refl,
        λ w₁. stop_closed_panics s' w₁ refl refl refl,
      )

-- Stop of a server whose manager's lock is free never returns, once the first connection that ClearAll
-- meets has a poller.
pub stop_blocks :
    {O Ctx W V : Type 0} (sys : Sys W) (net : Net W) (host : Host W)
    (protocols : Protocols RouterProtocol W) (clock : W → ℕ) (s : Server O Ctx RouterProtocol W V)
    (k : ℕ) (c : RouterProtocol) (es : List (ℕ × RouterProtocol)) (p : Poller) (w : W)
    → s.connect_mgr.locked ≡ false
    → s.connect_mgr.connects ≡ (k, c) ∷ es
    → c.poller ≡ some p
    → stop sys net (router_connect sys host) protocols clock s w ≡ blocked
unfolding stop
stop_blocks sys net host protocols clock s k c es p w free entries attached =
    ap
      (λ r. r >>= λ (m, w₁).
        close_rest sys net (router_connect sys host) protocols clock
          (record s { status = stopping; connect_mgr = m }) (Loop.stop sys s.eventloop w₁))
      (clear_all_blocks sys host s.connect_mgr k c es p w free entries attached)
