-- ===== src/Runs/Datagrams.antt =====
-- Runs of server/acceptor_udp_base.go, util/context.go and the packer's limit.
use netman.Common.{ℕ, refl, arith, none, true, false, [], ◌∷◌, ◌++◌, Bytes, inr}
use netman.Common.Endian.{u32_le}
use netman.Kernel.{created, datagram}
use netman.Util.DataPack.{DataPacker}
use netman.Router.{RouterProtocol, new_router_protocol, decode_packet}
use netman.Router.Layout.{default_packer}
use netman.Router.Datagram.{received}
use netman.Router.Limit.{Limited, decode_packet-Limited}
use netman.Acceptor.Serves.{router_protocols}
use netman.Udp.{UdpNet, make_udp_connect}
use netman.Udp.Attach.{Connected}
use netman.Udp.Turns.{run}
use netman.Udp.Listening.{KeptAfter, run-KeptAfter}
use netman.Udp.Accepts.{SetsUp, make_udp_connect-Connected}
use netman.World.{World, connection, world, plain, silent, outgoing, world-WriteLaws}
use netman.Manager.{ConnectManager}
use netman.Manager.Entries.{HoldsAll}
use netman.Wait.{wait}
use netman.Wait.Served.{sessions}
use netman.Wait.Serving.Loop.{ServesRound}
use netman.Wait.Datagrams.{IsDatagram, wait_serves_datagrams}
use netman.Runs.Polling.{
  unlimited, session, poller, manager, clock, sent_in, always_ready, plain-TlsLaws,
}
use netman.Runs.Service.{net, idle, accepting, plain_options, two_pollers-Registers, loop}

abbrev limited : DataPacker
limited = record { max_body_length = 4 }

abbrev hi : Bytes
hi = 104 ∷ 105 ∷ []

-- Every datagram is a packet of two bytes, from the peer 1.
abbrev peers : UdpNet ℕ World
peers = record {
  recv_from = λ fd size w. (datagram ((u32_le 2 ++ u32_le 7) ++ hi), 1, w);
  socket = λ w. (created 8, w);
  reuse_port = λ fd w. (none, w);
  reuse_addr = λ fd w. (none, w);
  bind = λ fd w. (none, w);
  connect = λ fd peer w. (none, w);
}

peers-SetsUp : SetsUp peers
peers-SetsUp = record {
  sockets = λ w. (8, refl);
  ports = λ fd w. refl;
  addresses = λ fd w. refl;
  binds = λ fd w. refl;
  connects = λ fd peer w. refl;
}

make_udp_connect-Connected_example :
    Connected world net peers silent new_router_protocol limited plain_options 32768 clock loop
      (received 7 hi)
      accepting
      (make_udp_connect world net peers
        (router_protocols world silent new_router_protocol)
        (default_packer limited)
        plain_options
        32768
        clock
        loop
        6
        accepting
        manager
        idle)
make_udp_connect-Connected_example =
    make_udp_connect-Connected world net peers silent new_router_protocol limited plain_options
      32768 clock loop peers-SetsUp two_pollers-Registers 7 hi 6 1 accepting manager idle idle
      (omega arith) (omega arith) (inr (omega arith)) refl refl

decode_packet-Limited_example :
    Limited 4 (decode_packet world plain (default_packer limited) 65507 3 session sent_in)
decode_packet-Limited_example =
    decode_packet-Limited 4 limited refl (omega arith) world plain 65507 3 session sent_in
      (omega arith)

abbrev of_peer : RouterProtocol
of_peer = record session { base = record connection { is_udp = true } }

abbrev peers_manager : ConnectManager RouterProtocol
peers_manager = record { connects = (9, of_peer) ∷ []; locked = false }

of_peers : HoldsAll IsDatagram peers_manager
of_peers = record {
  free = refl;
  is_map = (tt, tt);
  all = (
    record {
      under = refl;
      udp = refl;
      queued = record { attached = (poller, refl); drained = λ h. refl };
    },
    tt,
  );
}

wait_serves_datagrams_example : ServesRound IsDatagram ⊥ (
    wait world
      (sessions world plain unlimited 65507 silent)
      clock
      always_ready
      3
      poller
      peers_manager
      sent_in)
wait_serves_datagrams_example =
    wait_serves_datagrams world plain unlimited 65507 silent clock outgoing world-WriteLaws
      plain-TlsLaws always_ready 3 poller peers_manager sent_in of_peers

run-KeptAfter_example : KeptAfter (
    run world net peers
      (router_protocols world silent new_router_protocol)
      (default_packer limited)
      plain_options
      32768
      clock
      loop
      4
      6
      accepting
      peers_manager
      idle)
run-KeptAfter_example =
    run-KeptAfter world net peers silent new_router_protocol (default_packer limited) plain_options
      32768 clock loop two_pollers-Registers 4 6 accepting peers_manager idle of_peers
