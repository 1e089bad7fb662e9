-- ===== src/Runs/Servers.antt =====
-- Runs of util/pipeline.go, server/routermgr.go and server/connectmgr.go.
use netman.Common.{
  arith, ℕ, ◌+◌, ◌≡◌, refl, [], ◌∷◌, ◌++◌, ◌%◌, get_elem?, none, some, false, List, Option,
}
use netman.Errors.{Error}
use netman.Epoll.{Poller}
use netman.Kernel.{CreateResult, created, returns, ctl_add, ctl_del, in_pri}
use netman.EventLoop as Loop
use netman.EventLoop.{init, init_from, new_event_loop, add_read}
use netman.EventLoop.Choice.{Attaches, add_read-Attaches}
use netman.Manager.Heartbeat.{holding, heartbeat_tick_keeps}
use netman.World.{World, connection, world, silent}
use netman.Util.Pipeline.{Stage, new_pipeline, send, through, then_}
use netman.Util.Pipeline.Order.{then-through}
use netman.Manager.{ConnectManager, clear_by_ep_fd, heartbeat_tick, ended}
use netman.Manager.Lock.{clear_by_ep_fd_keeps}
use netman.Router.{RouterProtocol}
use netman.Router.ClearAll.{router_connect, close_removes}
use netman.Dispatch.{
  Route, Middleware, router_mode, MiddlewareGroup, RouterMgr, dispatch, resolve_group,
}
use netman.Dispatch.Onion.{dispatch-around, registered, resolve_group-registered}

-- Stages that note their number on the way in, before and behind what comes next.
abbrev noting : ℕ → Stage (List ℕ) (List ℕ)
noting n passed next = next (passed ++ n ∷ []) ++ n ∷ []

then-through_example :
    then_ (through (send (new_pipeline []) (0 ∷ [])) (noting 1 ∷ noting 2 ∷ [])) (λ v. v)
    ≡ some (0 ∷ 1 ∷ 2 ∷ 2 ∷ 1 ∷ [])
then-through_example = then-through [] (0 ∷ []) (noting 1 ∷ noting 2 ∷ []) (λ v. v)

-- A context is its message's number; handlers act on a list of numbers.
abbrev note_route : ℕ → Route ℕ (List ℕ)
note_route n ctx w = w ++ n ∷ []

abbrev note_middleware : ℕ → Middleware ℕ (List ℕ) ℕ
note_middleware n ctx next w = next ctx (w ++ n ∷ [])

abbrev group : ℕ → MiddlewareGroup ℕ (List ℕ) ℕ
group n = record { middlewares = note_middleware n ∷ []; routers = (7, note_route (n + 1)) ∷ [] }

abbrev routes : RouterMgr ℕ (List ℕ) ℕ
routes = record {
  inner = (7, note_route 3) ∷ [];
  route_middleware = (7, note_middleware 2 ∷ []) ∷ [];
  global_middlewares = note_middleware 1 ∷ [];
  middleware_group = group 10 ∷ group 20 ∷ [];
}

abbrev code_of : Option Error → ℕ
code_of none = 0
code_of (some e) = 1

dispatch-around_example :
    dispatch (λ ctx. ctx) (note_route 9) code_of 0 routes router_mode 7
    ≡ some (λ w. (0, ((w ++ 1 ∷ []) ++ 2 ∷ []) ++ 3 ∷ []))
dispatch-around_example = dispatch-around 0 (λ ctx. ctx) (note_route 9) code_of routes router_mode 7

resolve_group-registered_example :
    registered 7 (resolve_group routes) ≡ (some (note_middleware 20 ∷ []), some (note_route 21))
resolve_group-registered_example = resolve_group-registered 7 routes ((tt, tt), ((tt, tt), tt))

abbrev session : RouterProtocol
session = record {
  base = connection;
  read_buffer = [];
  pack_data_length = 0;
  temporary_message = none;
}

abbrev sessions : ConnectManager RouterProtocol
sessions = record { connects = (9, session) ∷ []; locked = false }

abbrev idle : World
idle = record { input = []; output = [] }

clear_by_ep_fd_keeps_example :
    (w' : World) × (clear_by_ep_fd world (router_connect world silent) sessions 3 idle
      ≡ ended (record { connects = []; locked = false }, w'))
clear_by_ep_fd_keeps_example =
    clear_by_ep_fd_keeps world (router_connect world silent) sessions 3 idle refl

-- Two connections of a poller, of which one has been silent since the second 1000.
abbrev later : RouterProtocol
later = record session { base = record connection { fd = 4; last_message_time = 1050 } }

abbrev IsAttached : RouterProtocol → Type 0
IsAttached c = (p : Poller) × (c.poller ≡ some p)

heartbeat_tick_keeps_example :
    (w' : World) × (heartbeat_tick world
        (router_connect world silent)
        1061
        60
        (holding ((9, session) ∷ (4, later) ∷ []))
        idle
      ≡ ended (holding ((4, later) ∷ []), w'))
heartbeat_tick_keeps_example =
    heartbeat_tick_keeps world (router_connect world silent) IsAttached (close_removes world silent)
      1061 60 ((9, session) ∷ (4, later) ∷ []) idle ((λ e. cc, tt), ((tt, tt)))
      (refl, (record { epfd = 3 }, refl), (refl, (record { epfd = 3 }, refl), tt))

-- Descriptors of new epoll instances, all of them 3.
abbrev create_world : World → CreateResult × World
create_world w = (created 3, w)

initialised : (init create_world (new_event_loop 2) idle).0 ≡ none
unfolding init init_from new_event_loop
initialised = refl

add_read-Attaches_example :
    let l = (init create_world (new_event_loop 2) idle).1 in
    (p : Poller) × (get_elem? l.pollers (1 % 2) ≡ some (some p))
    × Attaches connection p
        (world.epoll_ctl p.epfd (ctl_add in_pri 1) 9 idle)
        (add_read world l connection idle)
    × (let (e, w') = world.epoll_ctl p.epfd ctl_del 9 idle in
        Loop.remove world l connection idle ≡ (returns e, w'))
add_read-Attaches_example =
    add_read-Attaches world create_world 2 idle connection connection idle idle (omega arith)
      initialised refl
