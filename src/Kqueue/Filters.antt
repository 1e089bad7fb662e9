-- ===== src/Kqueue/Filters.antt =====
-- eventloop/kqueue.go: the filters of a descriptor after ModWrite and ModRead, errors included.
use netman.Common.{ℕ, ◌≡◌, ◌⊎◌, ◌∙◌, inl, inr, Bool, true, false, Option, none, some}
use netman.Errors.{Errno}
use netman.Epoll.{Poller}
use netman.Kqueue.{
  Filter, evfilt_read, evfilt_write, Flags, ev_add, ev_delete, Change, Kevent, add_write, add_read,
  then_write, mod_write, then_read, mod_read,
}

abbrev pub adds : Flags → Bool
adds ev_add = true
adds ev_delete = false

abbrev pub other_filter : Filter → Filter
other_filter evfilt_read = evfilt_write
other_filter evfilt_write = evfilt_read

-- What the queue watches a descriptor for: a call that succeeds makes its change, and one that fails
-- makes none.
abbrev pub Takes :
    {W : Type 0} → (ℕ → ℕ → Filter → W → Bool) → ℕ → Change → W → Option Errno × W → Type 0
Takes watched q k w (none, w') =
    (watched q k.ident k.filter w' ≡ adds k.flags)
    × (watched q k.ident (other_filter k.filter) w' ≡ watched q k.ident (other_filter k.filter) w)
Takes watched q k w (some e, w') = (f : Filter) → watched q k.ident f w' ≡ watched q k.ident f w

-- An exchange of filter `old` for `new`. One that fails adds nothing, and may have lost the old.
abbrev pub Exchanges : {W : Type 0} → (Filter → W → Bool) → Filter → W → Option Errno × W → Type 0
Exchanges on old w (none, w') = (on old w' ≡ false) × (on (other_filter old) w' ≡ true)
Exchanges on old w (some e, w') =
    (on (other_filter old) w' ≡ on (other_filter old) w)
    × ((on old w' ≡ on old w) ⊎ (on old w' ≡ false))

module _ {W : Type 0} (kevent : Kevent W) (watched : ℕ → ℕ → Filter → W → Bool)
    (laws : (q : ℕ) (k : Change) (w : W) → Takes watched q k w (kevent q k w)) where
  exchanged :
      (q fd data_ : ℕ) (new : Filter) (w w₁ : W) (r : Option Errno × W)
      → watched q fd (other_filter new) w₁ ≡ false
      → watched q fd new w₁ ≡ watched q fd new w
      → Takes watched q (record { ident = fd; filter = new; flags = ev_add; data_ = data_ }) w₁ r
      → Exchanges (watched q fd) (other_filter new) w r
  exchanged q fd data_ evfilt_read w w₁ (none, w') gone kept (on, off) = (off ∙ gone, on)
  exchanged q fd data_ evfilt_write w w₁ (none, w') gone kept (on, off) = (off ∙ gone, on)
  exchanged q fd data_ evfilt_read w w₁ (some e, w') gone kept same =
      (same evfilt_read ∙ kept, inr (same evfilt_write ∙ gone))
  exchanged q fd data_ evfilt_write w w₁ (some e, w') gone kept same =
      (same evfilt_write ∙ kept, inr (same evfilt_read ∙ gone))

  then_write-Exchanges :
      (p : Poller) (fd conn_id : ℕ) (w : W) (r : Option Errno × W)
      → Takes watched p.epfd
          (record { ident = fd; filter = evfilt_read; flags = ev_delete; data_ = 0 })
          w
          r
      → Exchanges (watched p.epfd fd) evfilt_read w (then_write kevent p fd conn_id r)
  unfolding then_write add_write
  then_write-Exchanges p fd conn_id w (some e, w₁) same =
      (same evfilt_write, inl (same evfilt_read))
  then_write-Exchanges p fd conn_id w (none, w₁) (off, kept) =
      exchanged p.epfd fd conn_id evfilt_write w w₁ _ off kept (laws p.epfd _ w₁)

  then_read-Exchanges :
      (p : Poller) (fd conn_id : ℕ) (w : W) (r : Option Errno × W)
      → Takes watched p.epfd
          (record { ident = fd; filter = evfilt_write; flags = ev_delete; data_ = 0 })
          w
          r
      → Exchanges (watched p.epfd fd) evfilt_write w (then_read kevent p fd conn_id r)
  unfolding then_read add_read
  then_read-Exchanges p fd conn_id w (some e, w₁) same = (same evfilt_read, inl (same evfilt_write))
  then_read-Exchanges p fd conn_id w (none, w₁) (off, kept) =
      exchanged p.epfd fd conn_id evfilt_read w w₁ _ off kept (laws p.epfd _ w₁)

  -- Where a call of kevent makes its change or fails and makes none: ModWrite exchanges the read
  -- filter for the write filter, and ModRead the write filter for the read filter. A call that fails
  -- adds no filter, and has kept the old one or lost it.
  pub mod_write-Exchanges :
      (p : Poller) (fd conn_id : ℕ) (w : W)
      → Exchanges (watched p.epfd fd) evfilt_read w (mod_write kevent p fd conn_id w)
        × Exchanges (watched p.epfd fd) evfilt_write w (mod_read kevent p fd conn_id w)
  unfolding mod_write mod_read
  mod_write-Exchanges p fd conn_id w = (
    then_write-Exchanges p fd conn_id w _ (laws p.epfd _ w),
    then_read-Exchanges p fd conn_id w _ (laws p.epfd _ w),
  )
