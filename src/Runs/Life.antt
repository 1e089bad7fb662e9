-- ===== src/Runs/Life.antt =====
-- Runs of server/server.go.
use netman.Common.{ℕ, ◌≡◌, refl, true, false, [], ◌∷◌, arith}
use netman.Dispatch.{new_router_mgr}
use netman.Manager.{ended, blocked, panicked}
use netman.Router.{RouterProtocol, new_router_protocol}
use netman.Router.ClearAll.{router_connect}
use netman.Router.Layout.{default_packer}
use netman.Options.{no_options, with_max_body_length}
use netman.Options.Last.{OneOf}
use netman.Acceptor.{returned}
use netman.Acceptor.Serves.{router_protocols}
use netman.Server.{Server, stopped, stopping, stop, start, new_}
use netman.Server.Created.{NoServer, ReadyRouter, new_-ready, IsReady}
use netman.Server.Started.{StartServes, start-serves}
use netman.Server.Stopped.{stop_blocks, stop_ends}
use netman.Runs.Polling.{unlimited, session, manager, poller, serving, clock}
use netman.World.{World, world, silent}
use netman.Runs.Service.{net, sockets, idle, two_pollers, accepting, loop, two_pollers-Registers}

new_-ready_example :
    OneOf
      (new_ world net sockets 4 [] (with_max_body_length 4 ∷ []) idle)
      (NoServer {O = ℕ} world net sockets 4 [] (with_max_body_length 4 ∷ []) idle)
      (ReadyRouter {O = ℕ} ℕ ℕ world net sockets 4)
new_-ready_example =
    new_-ready ℕ ℕ world net sockets 4 [] (with_max_body_length 4 ∷ []) idle (omega arith)

abbrev fresh : Server ℕ ℕ RouterProtocol World ℕ
fresh = record {
  status = stopped;
  options = no_options;
  socket = 6;
  acceptor = accepting;
  eventloop = loop;
  connect_mgr = manager;
  packer = default_packer unlimited;
  emit_closed = false;
  router_mgr = new_router_mgr;
}

fresh-IsReady : IsReady fresh
fresh-IsReady = record {
  at_rest = refl;
  polled = two_pollers-Registers.polled;
  serving = serving;
  not_closed = refl;
}

start-serves_example : StartServes world net silent new_router_protocol clock (
    start world net
      (router_connect world silent)
      (router_protocols world silent new_router_protocol)
      clock
      3
      fresh
      idle)
start-serves_example =
    start-serves world net silent new_router_protocol clock 3 fresh idle refl fresh-IsReady
      (λ epfd id fd w. refl)

stop_blocks_example :
    stop world net
      (router_connect world silent)
      (router_protocols world silent new_router_protocol)
      clock
      fresh
      idle
    ≡ blocked
stop_blocks_example =
    stop_blocks world net silent (router_protocols world silent new_router_protocol) clock fresh 9
      session [] poller idle refl refl refl

abbrev deserted : Server ℕ ℕ RouterProtocol World ℕ
deserted = record fresh {
  eventloop = two_pollers;
  connect_mgr = record { connects = []; locked = false };
}

stop_ends_example :
    (s' : Server ℕ ℕ RouterProtocol World ℕ) × (w' : World) × (stop world net
        (router_connect world silent)
        (router_protocols world silent new_router_protocol)
        clock
        deserted
        idle
      ≡ ended (s', w'))
    × (s'.status ≡ stopping)
    × (s'.emit_closed ≡ true)
    × ((turns : ℕ) (w₁ : World)
        → start world net
            (router_connect world silent)
            (router_protocols world silent new_router_protocol)
            clock
            turns
            s'
            w₁
          ≡ ended (returned, s', w₁))
    × ((w₁ : World)
        → stop world net
            (router_connect world silent)
            (router_protocols world silent new_router_protocol)
            clock
            s'
            w₁
          ≡ panicked)
stop_ends_example =
    stop_ends world net (router_connect world silent)
      (router_protocols world silent new_router_protocol) clock deserted idle refl refl refl tt
