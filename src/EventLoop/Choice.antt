-- ===== src/EventLoop/Choice.antt =====
-- eventloop/event.go: every connection gets a poller, and always the same.
use netman.Common.{
  ℕ, zero, suc, ◌%◌, ◌<◌, ◌≡◌, refl, sym, ap, subst, ◌∙◌, ◌⊎◌, inl, inr, Option, none, some, List,
  get_elem?, ◌==◌, arith, if_else,
}
use netman.Errors.{Errno}
use netman.Kernel.{
  Sys, CreateResult, created, create_failed, Call, returns, ctl_add, ctl_del, in_pri,
}
use netman.Epoll
use netman.Epoll.{Poller}
use netman.Connect.{BaseConnect, set_ep_fd, set_poller}
use netman.EventLoop.{
  EventLoop, new_event_loop, init_from, init_with, init, not_nil, poller_of, add_read, add_read_at,
  registered, remove, remove_at,
}

module _ {W : Type 0} (create : W → CreateResult × W) where
  init_with-get_elem? :
      (left i : ℕ) (r : CreateResult) (later : Option Errno × List (Option Poller) × W) (w : W)
      → (init_with left r later w).0 ≡ none
      → i < suc left
      → (later.0 ≡ none → (j : ℕ) → j < left → (p : Poller) × (get_elem? later.1 j ≡ some (some p)))
      → (p : Poller) × (get_elem? (init_with left r later w).1 i ≡ some (some p))
  init_with-get_elem? left i (create_failed x) later w h lt more = cc
  init_with-get_elem? left zero (created fd) later w h lt more = (record { epfd = fd }, refl)
  init_with-get_elem? left (suc i) (created fd) later w h lt more = more h i (omega arith)

  init_from-get_elem? :
      (n i : ℕ) (w : W)
      → (init_from create n w).0 ≡ none
      → i < n
      → (p : Poller) × (get_elem? (init_from create n w).1 i ≡ some (some p))
  unfolding init_from
  init_from-get_elem? zero i w h lt = absurd (omega arith)
  init_from-get_elem? (suc n) i w h lt =
      let (r, w') = create w in
      init_with-get_elem? n i r (init_from create n w') w' h lt
        (λ e j k. init_from-get_elem? n j w' e k)

-- What AddRead leaves, with the poller `p`, where epoll_ctl returned `called`: its result and its world,
-- with the connection as it was after an error, and else with the poller and the poller's descriptor.
abbrev pub Attaches :
    {W : Type 0}
    → BaseConnect
    → Poller
    → Option Errno × W
    → Call (Option Errno) × BaseConnect × W
    → Type 0
Attaches c p called (r, c', w') =
    (r ≡ returns called.0)
    × (w' ≡ called.1)
    × (((e : Errno) × (called.0 ≡ some e) × (c' ≡ c))
        ⊎ ((called.0 ≡ none) × (c' ≡ record c { poller = some p; epfd = p.epfd })))

module _ {W : Type 0} (sys : Sys W) where
  registered-Attaches :
      (p : Poller) (c : BaseConnect) (e : Option Errno) (w : W)
      → let (r, c') = registered p c e in Attaches c p (e, w) (r, c', w)
  unfolding set_poller set_ep_fd
  registered-Attaches p c (some e) w = (refl, refl, inl (e, refl, refl))
  registered-Attaches p c none w = (refl, refl, inr (refl, refl))

  -- After Init of an event loop of at least one poller has returned no error, the loop has a poller at
  -- the connection's id modulo the number of pollers. AddRead asks this poller's epoll to watch the
  -- connection's descriptor for reads; it returns the call's error and leaves the connection as it was,
  -- or returns none and only sets the connection's poller. Remove of a connection with the same id, in
  -- any later state, asks this same poller's epoll to forget its descriptor; neither panics.
  pub add_read-Attaches :
      (create : W → CreateResult × W) (num : ℕ) (w₀ : W) (c c₁ : BaseConnect) (w w₁ : W)
      → 0 < num
      → (init create (new_event_loop num) w₀).0 ≡ none
      → c₁.id ≡ c.id
      → let l = (init create (new_event_loop num) w₀).1 in
        (p : Poller) × (get_elem? l.pollers (c.id % num) ≡ some (some p))
        × Attaches c p (sys.epoll_ctl p.epfd (ctl_add in_pri c.id) c.fd w) (add_read sys l c w)
        × (let (e, w') = sys.epoll_ctl p.epfd ctl_del c₁.fd w₁ in
            remove sys l c₁ w₁ ≡ (returns e, w'))
  unfolding init new_event_loop add_read remove poller_of Epoll.add_read Epoll.remove
  add_read-Attaches create num w₀ c c₁ w w₁ some_num done same =
      let (p, at) = init_from-get_elem? create num (c.id % num) w₀ done (omega arith) in
      let l : EventLoop = record { num = num; pollers = (init_from create num w₀).1 } in
      let chosen : poller_of l c.id ≡ some p =
        if_else (num == 0) _ _ (ground arith) ∙ ap not_nil at in
      (
        p,
        at,
        subst
            (λ q.
              Attaches c p (sys.epoll_ctl p.epfd (ctl_add in_pri c.id) c.fd w)
                (add_read_at sys q c w))
            (sym chosen)
            (registered-Attaches p c (sys.epoll_ctl p.epfd (ctl_add in_pri c.id) c.fd w).0
              (sys.epoll_ctl p.epfd (ctl_add in_pri c.id) c.fd w).1),
        ap (λ q. remove_at sys q c₁ w₁) (ap (poller_of l) same ∙ chosen),
      )

module _ {W : Type 0} (create : W → CreateResult × W) where
  -- After Init of at least one poller returned no error, every id has a poller.
  pub init-poller_of :
      (num id : ℕ) (w : W)
      → 0 < num
      → (init create (new_event_loop num) w).0 ≡ none
      → (p : Poller) × (poller_of (init create (new_event_loop num) w).1 id ≡ some p)
  unfolding init new_event_loop poller_of
  init-poller_of num id w some_num done =
      let (p, at) = init_from-get_elem? create num (id % num) w done (omega arith) in
      (p, if_else (num == 0) _ _ (ground arith) ∙ ap not_nil at)
