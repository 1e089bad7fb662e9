-- ===== src/Runs/Polling.antt =====
-- Runs of eventloop/epoll.go.
use netman.Common.{ℕ, refl, false, none, [], ◌∷◌, inl}
use netman.Kernel.{Event, WaitResult, ready}
use netman.Epoll.{Poller}
use netman.Manager.{ConnectManager}
use netman.Router.{RouterProtocol}
use netman.Util.DataPack.{DataPacker}
use netman.Connect.Order.{IsQueued}
use netman.Wait.{wait, handle}
use netman.Wait.Frame.{read-Keeps}
use netman.Wait.Codes.{read-ReadsCodeless}
use netman.Wait.Served.{IsServing, TlsLaws, sessions}
use netman.Wait.Turns.{ServesRound, wait_serves}
use netman.Wait.Handed.{Handed}
use netman.Wait.Delivers.{handle-Handed}
use netman.World.{
  World, connection, world, plain, silent, incoming, outgoing, world-StreamLaws, world-WriteLaws,
}

abbrev pub unlimited : DataPacker
unlimited = record { max_body_length = 0 }

abbrev pub session : RouterProtocol
session = record {
  base = connection;
  read_buffer = [];
  pack_data_length = 0;
  temporary_message = none;
}

abbrev pub manager : ConnectManager RouterProtocol
manager = record { connects = (9, session) ∷ []; locked = false }

abbrev pub poller : Poller
poller = record { epfd = 3 }

pub at_rest : IsQueued connection
at_rest = record { attached = (poller, refl); drained = λ h. refl }

pub serving : IsServing manager
serving = record {
  free = refl;
  is_map = (tt, tt);
  all = (
    record {
      under = refl;
      tcp = refl;
      queued = at_rest;
      valid = inl (record { no_packet = refl; no_bytes = refl });
    },
    tt,
  );
}

pub plain-TlsLaws : TlsLaws world plain
plain-TlsLaws = record {
  same_fd = λ c w. refl;
  same_udp = λ c w. refl;
  queued = λ c w q. q;
  read_keeps = read-Keeps world;
  read_codeless = read-ReadsCodeless world;
}

-- A whole packet.
abbrev pub sent_in : World
sent_in = record { input = 2 ∷ 0 ∷ 0 ∷ 0 ∷ 7 ∷ 0 ∷ 0 ∷ 0 ∷ 104 ∷ 105 ∷ []; output = [] }

abbrev pub readable : Event
readable = record { fd = 9; is_out = false }

abbrev pub clock : World → ℕ
clock w = 1070

abbrev pub always_ready : ℕ → World → WaitResult × World
always_ready epfd w = (ready (readable ∷ readable ∷ []), w)

wait_serves_example : ServesRound (
    wait world
      (sessions world plain unlimited 65507 silent)
      clock
      always_ready
      3
      poller
      manager
      sent_in)
wait_serves_example =
    wait_serves world plain unlimited 65507 silent clock outgoing incoming world-WriteLaws
      world-StreamLaws plain-TlsLaws always_ready 3 poller manager sent_in serving

handle-Handed_example : Handed (incoming 9) clock 9 session sent_in (
    handle world
      (sessions world plain unlimited 65507 silent)
      clock
      poller
      readable
      manager
      sent_in)
handle-Handed_example =
    handle-Handed world plain unlimited 65507 silent incoming clock world-StreamLaws plain-TlsLaws
      poller readable session manager sent_in refl refl refl serving
