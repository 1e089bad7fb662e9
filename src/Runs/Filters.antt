-- ===== src/Runs/Filters.antt =====
-- Runs of eventloop/kqueue.go, on a queue that watches one descriptor.
use netman.Common.{ℕ, Bool, true, false, refl, Option, none, some}
use netman.Errors.{Errno, other}
use netman.Kqueue.{
  Filter, evfilt_read, evfilt_write, Flags, ev_add, ev_delete, Change, Kevent, mod_write, mod_read,
}
use netman.Kqueue.Filters.{Takes, Exchanges, mod_write-Exchanges}

-- Whether the read and the write filter are there.
pub record Filters : Type 0 where
  pub reads : Bool
  pub writes : Bool

-- To delete a filter that is not there is an error.
abbrev change : Filter → Flags → Bool → Bool → Option Errno × Filters
change evfilt_read ev_add r v = (none, record { reads = true; writes = v })
change evfilt_write ev_add r v = (none, record { reads = r; writes = true })
change evfilt_read ev_delete true v = (none, record { reads = false; writes = v })
change evfilt_read ev_delete false v = (some other, record { reads = false; writes = v })
change evfilt_write ev_delete r true = (none, record { reads = r; writes = false })
change evfilt_write ev_delete r false = (some other, record { reads = r; writes = false })

abbrev one_socket : Kevent Filters
one_socket q k w = change k.filter k.flags w.reads w.writes

abbrev watched : ℕ → ℕ → Filter → Filters → Bool
watched q fd evfilt_read w = w.reads
watched q fd evfilt_write w = w.writes

change-Takes :
    (f : Filter) (flags : Flags) (r v : Bool) (q i d : ℕ)
    → Takes watched q
        (record { ident = i; filter = f; flags = flags; data_ = d })
        (record { reads = r; writes = v })
        (change f flags r v)
change-Takes evfilt_read ev_add r v q i d = (refl, refl)
change-Takes evfilt_write ev_add r v q i d = (refl, refl)
change-Takes evfilt_read ev_delete true v q i d = (refl, refl)
change-Takes evfilt_read ev_delete false v q i d =
    λ f. elim f [ evfilt_read ↦ refl | evfilt_write ↦ refl ]
change-Takes evfilt_write ev_delete r true q i d = (refl, refl)
change-Takes evfilt_write ev_delete r false q i d =
    λ f. elim f [ evfilt_read ↦ refl | evfilt_write ↦ refl ]

one_socket-Takes : (q : ℕ) (k : Change) (w : Filters) → Takes watched q k w (one_socket q k w)
one_socket-Takes q k w = change-Takes k.filter k.flags w.reads w.writes q k.ident k.data_

abbrev readable : Filters
readable = record { reads = true; writes = false }

mod_write-Exchanges_example :
    Exchanges
      (watched 3 9)
      evfilt_read
      readable
      (mod_write one_socket (record { epfd = 3 }) 9 1 readable)
    × Exchanges
        (watched 3 9)
        evfilt_write
        readable
        (mod_read one_socket (record { epfd = 3 }) 9 1 readable)
mod_write-Exchanges_example =
    mod_write-Exchanges one_socket watched one_socket-Takes (record { epfd = 3 }) 9 1 readable
