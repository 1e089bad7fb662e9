-- ===== src/World.antt =====
-- A small world for the tests: bytes that a peer has sent, and bytes that the program has sent. Two
-- bytes at most go out in one write.
use netman.Common.{
  ℕ, zero, suc, ◌%◌, ◌≡◌, ◌≤◌, ◌<◌, refl, sym, ap, false, none, some, Bytes, [], ◌∷◌, ◌++◌, length,
  All, arith, append-nil,
}
use netman.Common.Endian.{IsByte}
use netman.Errors.{eagain}
use netman.Kernel.{Sys, ReadResult, got, read_failed, WriteResult, wrote, datagram}
use netman.Common.Int.{pos}
use netman.Connect.{BaseConnect, on_line}
use netman.Connect.Tls.{Tls, read_data}
use netman.Connect.Order.{Accepts, WriteLaws}
use netman.Connect.Drain.{StaysWritable}
use netman.Host.{Host}
use netman.Router.Stream.{StreamLaws}
use netman.Router.Stream.Plain.{Takes, ReadLaws, read-StreamLaws, read_data-StreamLaws}

pub record World : Type 0 where
  pub input : Bytes
  pub output : Bytes

pub as_bytes : Bytes → Bytes
as_bytes [] = []
as_bytes (b ∷ bs) = b % 256 ∷ as_bytes bs

abbrev pub incoming : ℕ → World → Bytes
incoming fd w = as_bytes w.input

abbrev pub outgoing : ℕ → World → Bytes
outgoing fd w = w.output

-- The bytes that a read takes, and the others.
abbrev pub serve : ℕ → Bytes → Bytes × Bytes
serve zero bs = ([], bs)
serve (suc n) [] = ([], [])
serve (suc n) (b ∷ bs) = let (taken, rest) = serve n bs in (b % 256 ∷ taken, rest)

abbrev pub read_world : ℕ → ℕ → World → ReadResult × World
read_world fd size w = elim w.input [
  | [] ↦ (read_failed eagain, w)
  | b ∷ bs ↦ (got (serve size w.input).0, record w { input = (serve size w.input).1 })
]

abbrev pub write_world : ℕ → Bytes → World → WriteResult × World
write_world fd [] w = (wrote 0, w)
write_world fd (a ∷ []) w = (wrote 1, record w { output = w.output ++ a ∷ [] })
write_world fd (a ∷ b ∷ bs) w = (wrote 2, record w { output = w.output ++ a ∷ b ∷ [] })

abbrev pub world : Sys World
world = record {
  read = read_world;
  write = write_world;
  recv_from = λ fd size w. (datagram (serve size w.input).0, record w { input = [] });
  close = λ fd w. (none, w);
  set_nonblock = λ fd b w. (none, w);
  epoll_ctl = λ p k fd w. (none, w);
}

abbrev pub plain : Tls World
plain = record { tls_read = λ f. f; tls_write = λ f. f; handshake = λ r s c w. (none, c, w) }

serve_parts :
    (n : ℕ) (bs : Bytes)
    → (length (serve n bs).0 ≤ n)
      × (as_bytes bs ≡ (serve n bs).0 ++ as_bytes (serve n bs).1)
      × All IsByte (serve n bs).0
unfolding as_bytes
serve_parts zero bs = (omega arith, refl, tt)
serve_parts (suc n) [] = (omega arith, refl, tt)
serve_parts (suc n) (b ∷ bs) =
    let (le, same, are_bytes) = serve_parts n bs in
    (omega arith, ap (◌∷◌ (b % 256)) same, (omega arith, are_bytes))

read-Takes :
    (fd size : ℕ) (input output : Bytes)
    → Takes
        (incoming fd)
        size
        (record { input = input; output = output })
        (read_world fd size (record { input = input; output = output }))
read-Takes fd size [] output = refl
read-Takes fd size (b ∷ bs) output = serve_parts size (b ∷ bs)

pub world-ReadLaws : ReadLaws world incoming
world-ReadLaws fd size w = read-Takes fd size w.input w.output

pub world-StreamLaws : StreamLaws (read_data world plain) incoming
world-StreamLaws =
    let laws = read-StreamLaws world incoming world-ReadLaws in
    read_data-StreamLaws world plain incoming laws laws

write_accepted :
    (fd : ℕ) (bs : Bytes) (w : World) → Accepts (outgoing fd) bs w (write_world fd bs w)
write_accepted fd [] w = (omega arith, sym (append-nil w.output))
write_accepted fd (a ∷ []) w = (omega arith, refl)
write_accepted fd (a ∷ b ∷ bs) w = (omega arith, refl)

pub world-WriteLaws : WriteLaws world outgoing
world-WriteLaws = record {
  write_accepts = write_accepted;
  nonblock_keeps = λ k fd b w. refl;
  epoll_keeps = λ k p ctl fd w. refl;
}

some_taken :
    (fd : ℕ) (bs : Bytes) (w : World)
    → (n : ℕ) × ((write_world fd bs w).0 ≡ wrote n) × (0 < length bs → 0 < n)
some_taken fd [] w = (0, refl, λ h. h)
some_taken fd (a ∷ []) w = (1, refl, λ h. omega arith)
some_taken fd (a ∷ b ∷ bs) w = (2, refl, λ h. omega arith)

pub world-StaysWritable : StaysWritable world
world-StaysWritable = record { takes_some = some_taken; registers = λ p k fd w. refl }

-- A connection of a poller, as newBaseConnect and the acceptor make it.
abbrev pub connection : BaseConnect
connection = record {
  id = 1;
  fd = 9;
  epfd = 3;
  is_udp = false;
  has_hooks = false;
  write_buff = [];
  poller = some (record { epfd = 3 });
  write_q = record { inner = [] };
  state = on_line;
  last_message_time = 1000;
  tls_enable = false;
  handshake_completed = false;
  tls_raw_size = pos 0;
  tls_write_packet_size = 0;
}

abbrev pub silent : Host World
silent = record {
  manager_remove = λ fd w. w;
  on_close = λ id w. w;
  handler_open = λ id w. w;
  handler_close = λ id w. w;
}
