-- ===== src/Runs/Live.antt =====
-- Runs of the goroutines of a server together.
use netman.Common.{ℕ, refl, false, none, [], ◌∷◌}
use netman.Common.Int.{pos, ◌+ℤ◌}
use netman.Errors.{Errno}
use netman.Kernel.{Event, wait_failed}
use netman.Epoll
use netman.Epoll.{Poller}
use netman.EventLoop as Loop
use netman.EventLoop.{poller_of, init, init_from, new_event_loop}
use netman.Connect.{new_base_connect, set_poller, set_ep_fd}
use netman.Util.Queue.{new_queue}
use netman.Manager.{ConnectManager, new_connect_manager, heartbeat_tick, add, lock}
use netman.Router.{RouterProtocol, new_router_protocol}
use netman.Router.ClearAll.{router_connect}
use netman.Acceptor.{
  Acceptor, increment_id, on_event, after_accept, after_option, attach, after_add,
}
use netman.Acceptor.Serves.{router_protocols}
use netman.Wait.{handle, after_wait}
use netman.Wait.Served.{IsServing, sessions}
use netman.Server.Live.{Reachable, at_first, after, accepts}
use netman.Server.Sends.{TlsWriteLaws}
use netman.Connect.Socket.{write-SameSocket}
use netman.Server.Safety.{Returns, live_server}
use netman.Connect.Order.{write-Extends}
use netman.World.{world, plain, silent, incoming, outgoing, world-StreamLaws, world-WriteLaws}
use netman.Runs.Polling.{unlimited, poller, clock, plain-TlsLaws}
use netman.Runs.Service.{net, idle, accepting, plain_options, two_pollers-Registers}

plain-TlsWriteLaws : TlsWriteLaws world plain
plain-TlsWriteLaws = record {
  write_same = λ c bs w. write-SameSocket world c bs w;
  write_queued = λ c bs w q. (write-Extends world outgoing world-WriteLaws c bs w q).1;
}

abbrev listening : Event
listening = record { fd = 6; is_out = false }

-- The first connection.
abbrev first_connection : RouterProtocol
first_connection = record {
  base = set_poller (set_ep_fd (new_base_connect 0 9 false false false 1070) 3) poller;
  read_buffer = [];
  pack_data_length = 0;
  temporary_message = none;
}

abbrev holding_one : ConnectManager RouterProtocol
holding_one = record { connects = (9, first_connection) ∷ []; locked = false }

abbrev accepted_one : Acceptor
accepted_one = record accepting { conn_id = pos 0 }

abbrev loop : Loop.EventLoop
loop = (init net.epoll_create (new_event_loop 2) idle).1

reached :
    Reachable world net plain unlimited 65507 silent new_router_protocol plain_options clock loop
      (accepting, new_connect_manager, idle)
      (accepted_one, holding_one, idle)
unfolding on_event after_accept after_option attach after_add increment_id ◌+ℤ◌ Loop.add_read
    poller_of init init_from new_event_loop add lock new_connect_manager new_router_protocol
    new_base_connect set_poller set_ep_fd new_queue Epoll.add_read
reached =
    after (accepting, new_connect_manager, idle) (accepted_one, holding_one, idle) at_first
      (accepts listening _ accepting accepted_one new_connect_manager holding_one idle idle refl)

live_server_example :
    IsServing holding_one
    × ((ev : Event)
        → Returns (
            on_event world net
              (router_protocols world silent new_router_protocol)
              plain_options
              clock
              loop
              ev
              accepted_one
              holding_one
              idle))
    × ((p : Poller) (ev : Event)
        → Returns (
            handle world (sessions world plain unlimited 65507 silent) clock p ev holding_one idle))
    × ((p : Poller) (e : Errno)
        → Returns (
            after_wait world
              (sessions world plain unlimited 65507 silent)
              clock
              p
              (wait_failed e)
              holding_one
              idle))
    × ((now idle_time : ℕ)
        → Returns
            (heartbeat_tick world (router_connect world silent) now idle_time holding_one idle))
live_server_example =
    live_server world net plain unlimited 65507 silent new_router_protocol plain_options clock loop
      outgoing incoming world-WriteLaws world-StreamLaws plain-TlsLaws plain-TlsWriteLaws refl
      two_pollers-Registers accepting accepted_one holding_one idle idle reached
