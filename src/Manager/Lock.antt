-- ===== src/Manager/Lock.antt =====
-- server/connectmgr.go: what the lock does to the calls that hold it.
use netman.Common.{
  ℕ, ◌≡◌, refl, ap, false, List, [], ◌∷◌, ◌==◌, not, arith, Bool-cases, inl, inr, filter_if,
}
use netman.Kernel.{Sys}
use netman.Manager.{ConnectManager, Connect, ended, lock, unlock, clear_entries, clear_by_ep_fd}

module _ {C W : Type 0} (sys : Sys W) (con : Connect C W) where
  clear_entries_keep :
      (epfd : ℕ) (es : List (ℕ × C)) (w : W)
      → (clear_entries sys con epfd es w).0 ≡ filter_if (λ e. not (con.epfd e.1 == epfd)) es
  unfolding clear_entries
  clear_entries_keep epfd [] w = refl
  clear_entries_keep epfd ((k, c) ∷ es) w = elim (Bool-cases (con.epfd c == epfd)) [
    | inl there ↦ rw there (clear_entries_keep epfd es _)
    | inr elsewhere ↦ rw elsewhere (ap (◌∷◌ (k, c)) (clear_entries_keep epfd es _))
  ]

  -- ClearByEpFd on a manager whose lock is free returns with the lock free, and keeps the connections
  -- of the other epoll instances, in their order, and no other.
  pub clear_by_ep_fd_keeps :
      (m : ConnectManager C) (epfd : ℕ) (w : W)
      → m.locked ≡ false
      → (w' : W) × (clear_by_ep_fd sys con m epfd w
          ≡ ended (
            record {
              connects = filter_if (λ e. not (con.epfd e.1 == epfd)) m.connects;
              locked = false;
            },
            w',
          ))
  unfolding clear_by_ep_fd lock unlock
  clear_by_ep_fd_keeps m epfd w free = (
    (clear_entries sys con epfd m.connects w).1,
    ground (arith, clear_entries_keep epfd m.connects w),
  )
