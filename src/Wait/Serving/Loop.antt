-- ===== src/Wait/Serving/Loop.antt =====
-- eventloop/epoll.go, Wait: the loops over events and turns.
use netman.Common.{
  ℕ, zero, suc, refl, subst, sym, Bool, not, List, [], ◌∷◌, ◌++◌, ◌==◌, Option, inl, inr,
}
use netman.Errors.{eagain, eintr, ebadf, epipe, other}
use netman.Kernel.{Sys, Event, WaitResult, ready, wait_failed}
use netman.Epoll.{Poller}
use netman.Util.Message.{Message}
use netman.Manager.{ConnectManager, Ended, ended, blocked, panicked, ◌>>=◌, clear_by_ep_fd}
use netman.Manager.Entries.{HoldsAll, filter-IsMap, filter-AllEntries}
use netman.Manager.Lock.{clear_by_ep_fd_keeps}
use netman.Wait.{
  Session, Handled, Round, next, left, preceded, listed, handle, handle_all, after_wait, wait,
}
use netman.Wait.Serving.{ServesOr, Serving, EventWhy, weaken, handle-Serves}

module _ {C : Type 0} (IsGood : ℕ → C → Type 0) {W : Type 0} (P : Type 0) where
  abbrev pub ServesAll : Ended (List (C × Message) × ConnectManager C × W) → Type 0
  ServesAll (ended (sent, m, w)) = HoldsAll IsGood m
  ServesAll blocked = ⊥
  ServesAll panicked = P

  -- A loop that did not stop for ever, with such a manager.
  abbrev pub ServesRound : Ended (Round C W) → Type 0
  ServesRound (ended (next sent m w)) = HoldsAll IsGood m
  ServesRound (ended (left sent m w)) = HoldsAll IsGood m
  ServesRound blocked = ⊥
  ServesRound panicked = P

module _ {C W : Type 0} (sys : Sys W) (ses : Session C W) (clock : W → ℕ) (IsGood : ℕ → C → Type 0)
    (Why : C → ConnectManager C → W → Type 0) (serving : Serving sys ses clock IsGood Why)
    (P : Type 0) (because : (c : C) (m : ConnectManager C) (w : W) → Why c m w → P) where
  abbrev Swept : Ended (List (C × Message) × ConnectManager C × W) → Type 0
  Swept r = ServesAll IsGood P r

  abbrev Loop : Ended (Round C W) → Type 0
  Loop r = ServesRound IsGood P r

  because_event : (ev : Event) (m : ConnectManager C) (w : W) → EventWhy sys ses Why ev m w → P
  because_event ev m w (c, found, out, inl (_, y)) = because c m w y
  because_event ev m w (c, found, out, inr (_, y)) = because _ m _ y

  pub event-Serves :
      (p : Poller) (ev : Event) (m : ConnectManager C) (w : W)
      → HoldsAll IsGood m
      → ServesOr IsGood P (handle sys ses clock p ev m w)
  event-Serves p ev m w s =
      weaken IsGood (because_event ev m w) (handle sys ses clock p ev m w)
        (handle-Serves sys ses clock IsGood Why serving p ev m w s)

  with_more :
      (sent : Option (C × Message)) (r : Ended (List (C × Message) × ConnectManager C × W))
      → Swept r
      → Swept (r >>= λ (rest, m, w). ended (listed sent ++ rest, m, w))
  with_more sent (ended (rest, m, w)) s = s
  with_more sent blocked s = s
  with_more sent panicked s = s

  then_more :
      (p : Poller) (evs : List Event) (first : Handled C W)
      → ServesOr IsGood P first
      → ((m : ConnectManager C) (w : W)
          → HoldsAll IsGood m
          → Swept (handle_all sys ses clock p evs m w))
      → Swept (
          first >>= λ (sent, m, w). handle_all sys ses clock p evs m w >>= λ (rest, m', w').
          ended (listed sent ++ rest, m', w'))
  then_more p evs (ended (sent, m, w)) s later =
      with_more sent (handle_all sys ses clock p evs m w) (later m w s)
  then_more p evs blocked s later = s
  then_more p evs panicked s later = s

  pub handle_all-Serves :
      (p : Poller) (evs : List Event) (m : ConnectManager C) (w : W)
      → HoldsAll IsGood m
      → Swept (handle_all sys ses clock p evs m w)
  unfolding handle_all
  handle_all-Serves p [] m w s = s
  handle_all-Serves p (ev ∷ evs) m w s =
      then_more p evs (handle sys ses clock p ev m w) (event-Serves p ev m w s)
        (handle_all-Serves p evs)

  clear-Loop :
      (m : ConnectManager C) (epfd : ℕ) (w : W)
      → HoldsAll IsGood m
      → Loop (clear_by_ep_fd sys ses.connect m epfd w >>= λ (m', w'). ended (left [] m' w'))
  clear-Loop m epfd w s =
      let (w', e) = clear_by_ep_fd_keeps sys ses.connect m epfd w s.free in
      let elsewhere : ℕ × C → Bool = λ e. not (ses.connect.epfd e.1 == epfd) in
      subst (λ r. Loop (r >>= λ (m', w'). ended (left [] m' w'))) (sym e)
        (record {
          free = refl;
          is_map = filter-IsMap elsewhere m.connects s.is_map;
          all = filter-AllEntries IsGood elsewhere m.connects s.all;
        })

  sent-Loop :
      (r : Ended (List (C × Message) × ConnectManager C × W))
      → Swept r
      → Loop (r >>= λ (ms, m, w). ended (next ms m w))
  sent-Loop (ended (ms, m, w)) s = s
  sent-Loop blocked s = s
  sent-Loop panicked s = s

  pub after_wait-Serves :
      (p : Poller) (r : WaitResult) (m : ConnectManager C) (w : W)
      → HoldsAll IsGood m
      → Loop (after_wait sys ses clock p r m w)
  unfolding after_wait
  after_wait-Serves p (wait_failed eagain) m w s = s
  after_wait-Serves p (wait_failed eintr) m w s = s
  after_wait-Serves p (wait_failed ebadf) m w s = clear-Loop m p.epfd w s
  after_wait-Serves p (wait_failed epipe) m w s = clear-Loop m p.epfd w s
  after_wait-Serves p (wait_failed other) m w s = clear-Loop m p.epfd w s
  after_wait-Serves p (ready evs) m w s =
      sent-Loop (handle_all sys ses clock p evs m w) (handle_all-Serves p evs m w s)

  later-Loop :
      (ms : List (C × Message)) (r : Ended (Round C W))
      → Loop r
      → Loop (r >>= λ later. ended (preceded ms later))
  later-Loop ms (ended (next more m w)) s = s
  later-Loop ms (ended (left more m w)) s = s
  later-Loop ms blocked s = s
  later-Loop ms panicked s = s

  module _ (epoll_wait : ℕ → W → WaitResult × W) where
    then_wait :
        (turns : ℕ) (p : Poller) (r : Ended (Round C W))
        → Loop r
        → ((m : ConnectManager C) (w : W)
            → HoldsAll IsGood m
            → Loop (wait sys ses clock epoll_wait turns p m w))
        → Loop (
            r >>= λ round. elim round [
              | left ms m w ↦ ended (left ms m w)
              | next ms m w ↦
                  wait sys ses clock epoll_wait turns p m w >>= λ later. ended (preceded ms later)
            ])
    then_wait turns p (ended (left ms m w)) s later = s
    then_wait turns p (ended (next ms m w)) s later =
        later-Loop ms (wait sys ses clock epoll_wait turns p m w) (later m w s)
    then_wait turns p blocked s later = s
    then_wait turns p panicked s later = s

    pub wait-Serves :
        (turns : ℕ) (p : Poller) (m : ConnectManager C) (w : W)
        → HoldsAll IsGood m
        → Loop (wait sys ses clock epoll_wait turns p m w)
    unfolding wait
    wait-Serves zero p m w s = s
    wait-Serves (suc turns) p m w s =
        let (r, w₁) = epoll_wait p.epfd w in
        then_wait turns p (after_wait sys ses clock p r m w₁) (after_wait-Serves p r m w₁ s)
          (wait-Serves turns p)
