-- ===== src/Runs/Service.antt =====
-- Runs of server/options.go and server/acceptor_linux.go.
use netman.Common.{ℕ, ◌≡◌, refl, false, none, some, List, [], ◌∷◌, Bytes, arith, map}
use netman.Common.Int.{pos, negsuc, ◌+ℤ◌}
use netman.Errors.{Result, ok, ebadf}
use netman.Kernel.{Sys, Net, created, accepted, ready}
use netman.EventLoop.{EventLoop, new_event_loop, init, init_from, poller_of}
use netman.EventLoop.Choice.{init-poller_of}
use netman.Dispatch.{router_mode}
use netman.Manager.{panicked}
use netman.Router.{new_router_protocol}
use netman.Options.{no_options, parse_option}
use netman.Options.Last.{
  Setting, num_event_loop, max_body_length, tls, setter, OneOf, Fails, Says, parse_option-last,
}
use netman.Socket.{SocketSys}
use netman.Acceptor.{Acceptor, AcceptOptions, exit_event, attach, run}
use netman.Acceptor.Serves.{router_protocols, Registers, Attached, attach-Attached}
use netman.Acceptor.Listening.{ServesRun, run-ServesRun}
use netman.Acceptor.Refused.{attach_panics}
use netman.Runs.Polling.{manager, poller, serving, clock}
use netman.World.{World, world, silent}

abbrev load : Bytes → Bytes → Result ℕ
load cert_file key_file = ok 1

abbrev settings : List (Setting ℕ)
settings = num_event_loop (pos 2) ∷ max_body_length 4 ∷ tls [] [] ∷ num_event_loop (pos 3) ∷ []

parse_option-last_example :
    OneOf
      (parse_option (map (setter load) settings))
      (Fails load settings)
      (Says load settings no_options)
parse_option-last_example = parse_option-last load settings

-- A network on which everything succeeds, and a connection comes at each turn.
abbrev pub net : Net World
net = record {
  event = λ w. (created 5, w);
  epoll_create = λ w. (created 3, w);
  epoll_wait = λ epfd w. (ready (record { fd = 6; is_out = false } ∷ []), w);
  accept = λ fd w. (accepted 9, w);
  no_delay = λ fd w. (none, w);
}

abbrev pub sockets : SocketSys World
sockets = record {
  socket = λ w. (created 6, w);
  set_option = λ fd o n w. (none, w);
  resolve = λ address. some 80;
  bind = λ fd port w. (none, w);
  listen = λ fd w. (none, w);
}

abbrev pub idle : World
idle = record { input = []; output = [] }

abbrev pub two_pollers : EventLoop
two_pollers = record { num = 2; pollers = some poller ∷ some poller ∷ [] }

made : (init net.epoll_create (new_event_loop 2) idle).0 ≡ none
unfolding init init_from new_event_loop
made = refl

pub two_pollers-Registers : Registers world (init net.epoll_create (new_event_loop 2) idle).1
two_pollers-Registers = record {
  polled = λ id. init-poller_of net.epoll_create 2 id idle (omega arith) made;
  registers = λ epfd id fd w. refl;
}

abbrev pub accepting : Acceptor
accepting = record { poller = poller; eventfd = 5; eventbuff = exit_event; conn_id = negsuc 0 }

abbrev pub plain_options : AcceptOptions
plain_options = record { tls_enable = false; has_hooks = false; application = router_mode }

abbrev pub loop : EventLoop
loop = (init net.epoll_create (new_event_loop 2) idle).1

attach-Attached_example :
    Attached world net silent new_router_protocol plain_options clock loop 4 accepting manager idle
      (attach world net
        (router_protocols world silent new_router_protocol)
        plain_options
        clock
        loop
        4
        accepting
        manager
        idle)
attach-Attached_example =
    attach-Attached world net silent new_router_protocol plain_options clock loop 4 accepting
      manager idle refl two_pollers-Registers serving

run-ServesRun_example : ServesRun (
    run world net
      (router_protocols world silent new_router_protocol)
      plain_options
      clock
      loop
      3
      6
      accepting
      manager
      idle)
run-ServesRun_example =
    run-ServesRun world net silent new_router_protocol plain_options clock loop refl
      two_pollers-Registers 3 6 accepting manager idle serving

-- An epoll instance that takes no more descriptors.
abbrev refusing : Sys World
refusing = record world { epoll_ctl = λ p k fd w. (some ebadf, w) }

attach_panics_example :
    attach refusing net
      (router_protocols refusing silent new_router_protocol)
      plain_options
      clock
      two_pollers
      4
      accepting
      manager
      idle
    ≡ panicked
unfolding poller_of ◌+ℤ◌
attach_panics_example =
    attach_panics refusing net silent new_router_protocol plain_options clock two_pollers 4
      accepting manager idle poller ebadf refl refl refl
