-- ===== src/Runs/Queues.antt =====
-- Runs of eventloop/kqueue.go and server/acceptor_darwin.go.
use netman.Common.{ℕ, ◌≡◌, refl, [], ◌∷◌, none, some}
use netman.Common.Int.{negsuc}
use netman.Kernel.{created}
use netman.Router.{RouterProtocol, new_router_protocol}
use netman.Acceptor.{Acceptor}
use netman.Acceptor.Serves.{Registers, router_protocols}
use netman.Wait as Epolls
use netman.Wait.{Session}
use netman.Wait.Served.{sessions}
use netman.Kqueue.{Kevent, on_kqueue, evfilt_read, register, add_read}
use netman.Kqueue.Waiting.{Waited, occurred, wait, new_poller}
use netman.Kqueue.Same.{as_epoll_wait, wait-wait}
use netman.Darwin.{Queues, new_acceptor, with_poller, run}
use netman.Darwin.Listening.{ServesAndCloses, run-ServesAndCloses}
use netman.World.{World, world, plain, silent}
use netman.Runs.Polling.{unlimited, poller, manager, serving, sent_in, clock}
use netman.Runs.Service.{net, idle, loop, plain_options, two_pollers-Registers}

-- A queue that takes every change, with a readable connection and then the user event.
abbrev obliging : Kevent World
obliging q k w = (none, w)

abbrev occurrences : ℕ → World → Waited × World
occurrences q w = (
  occurred (
      record { ident = 9; filter = evfilt_read } ∷ record { ident = 0; filter = evfilt_read } ∷ []),
  w,
)

abbrev queues : Queues World
queues = record {
  kqueue = λ w. (created 3, w);
  add_user = λ q w. (none, w);
  trigger_user = λ q w. w;
  occurs = occurrences;
}

abbrev connections : Session RouterProtocol World
connections = sessions (on_kqueue obliging world) plain unlimited 65507 silent

wait-wait_example :
    wait world connections clock occurrences 2 poller manager sent_in
    ≡ Epolls.wait
        (on_kqueue obliging world)
        connections
        clock
        (as_epoll_wait occurrences)
        2
        poller
        manager
        sent_in
wait-wait_example = wait-wait obliging world connections clock occurrences 2 poller manager sent_in

abbrev accepting : Acceptor
accepting = record { poller = poller; eventfd = 0; eventbuff = []; conn_id = negsuc 0 }

made : new_acceptor queues idle ≡ some (accepting, idle)
unfolding new_acceptor with_poller new_poller
made = refl

registering : Registers (on_kqueue obliging world) loop
unfolding register add_read
registering = record { polled = two_pollers-Registers.polled; registers = λ epfd id fd w. refl }

run-ServesAndCloses_example :
    ServesAndCloses world obliging net queues silent new_router_protocol plain_options clock loop
      refl registering 3
      (run world obliging net queues
        (router_protocols (on_kqueue obliging world) silent new_router_protocol)
        plain_options
        clock
        loop
        4
        6
        accepting
        manager
        idle)
run-ServesAndCloses_example =
    run-ServesAndCloses world obliging net queues silent new_router_protocol plain_options clock
      loop refl registering idle idle 4 6 accepting manager idle made serving
