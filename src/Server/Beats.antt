-- ===== src/Server/Beats.antt =====
-- server/connectmgr.go, HeartbeatCheck, over served connections.
use netman.Common.{ℕ, ◌≡◌, refl, sym, ap, subst, ◌∙◌, Bool, false, some, List, [], ◌∷◌, filter_if}
use netman.Kernel.{Sys}
use netman.Epoll.{Poller}
use netman.Host.{Host}
use netman.Manager.{ConnectManager, Ended, ended, blocked, panicked, heartbeat_tick}
use netman.Manager.Map.{IsMap}
use netman.Manager.Heartbeat.{holding, is_recent, AreLive, heartbeat_tick_keeps}
use netman.Router.{RouterProtocol}
use netman.Router.ClearAll.{router_connect, close_removes}
use netman.Wait.Served.{IsServed, IsServing, AllServed}
use netman.Manager.Entries.{filter-IsMap, filter-AllEntries}

abbrev IsAttached : RouterProtocol → Type 0
IsAttached c = (p : Poller) × (c.poller ≡ some p)

module _ {W : Type 0} (sys : Sys W) (host : Host W) (now idle : ℕ) where
  served-AreLive :
      (es : List (ℕ × RouterProtocol))
      → AllServed es
      → AreLive sys (router_connect sys host) IsAttached (close_removes sys host) now idle es
  served-AreLive [] v = tt
  served-AreLive ((k, c) ∷ es) (v, vs) = (v.under, v.queued.attached, served-AreLive es vs)

  -- The heartbeat on a serving manager.
  beat-holding :
      (es : List (ℕ × RouterProtocol)) (w : W) (locked : Bool)
      → locked ≡ false
      → IsMap es
      → AllServed es
      → (m' : ConnectManager RouterProtocol) × (w' : W) × (heartbeat_tick sys
            (router_connect sys host)
            now
            idle
            (record { connects = es; locked = locked })
            w
          ≡ ended (m', w'))
        × IsServing m'
  beat-holding es w locked free v s =
      let con = router_connect sys host in
      let (w', e) =
        heartbeat_tick_keeps sys con IsAttached (close_removes sys host) now idle es w v
          (served-AreLive es s) in
      let recent : ℕ × RouterProtocol → Bool =
        is_recent sys con IsAttached (close_removes sys host) now idle in
      (
        holding (filter_if recent es),
        w',
        ap (λ b. heartbeat_tick sys con now idle (record { connects = es; locked = b }) w) free ∙ e,
        record {
          free = refl;
          is_map = filter-IsMap recent es v;
          all = filter-AllEntries IsServed recent es s;
        },
      )

abbrev pub ServesBeat : {W : Type 0} → Ended (ConnectManager RouterProtocol × W) → Type 0
ServesBeat (ended (m, w)) = IsServing m
ServesBeat blocked = ⊥
ServesBeat panicked = ⊥

-- The heartbeat keeps a serving manager serving.
pub beat-ServesBeat :
    {W : Type 0} (sys : Sys W) (host : Host W) (now idle : ℕ) (m : ConnectManager RouterProtocol)
    (w : W)
    → IsServing m
    → ServesBeat (heartbeat_tick sys (router_connect sys host) now idle m w)
beat-ServesBeat sys host now idle m w v =
    let (m', w', e, s) =
      beat-holding sys host now idle m.connects w m.locked v.free v.is_map v.all in
    subst ServesBeat (sym e) s
