-- ===== src/Wait/Serving.antt =====
-- eventloop/epoll.go, Wait: what its connections have to keep, so that a poller can serve them for ever.
pub mod Loop
use netman.Common.{
  ℕ, ◌≡◌, refl, true, false, Option, none, some, ◌⊎◌, inl, inr, Bool-cases, choose, prove_then,
  prove_else,
}
use netman.Errors.{Errno, Error}
use netman.Kernel.{Sys, Event, Call, returns, panics}
use netman.Epoll.{Poller}
use netman.Manager.{ConnectManager, ended, blocked, panicked, ◌>>=◌, of_lock, get, lookup}
use netman.Manager.Map.{store-IsMap}
use netman.Manager.Entries.{HoldsAll, lookup-AllEntries, store-AllEntries}
use netman.Wait.{
  Session, Handled, decode, after_write, on_writable, after_handshake, on_readable, on_event,
  handle, refresh, write_back, silently,
}

module _ {C : Type 0} (IsGood : ℕ → C → Type 0) where
  write_back-HoldsAll :
      (fd : ℕ) (c : C) (old : Option C) (m : ConnectManager C)
      → IsGood fd c
      → HoldsAll IsGood m
      → HoldsAll IsGood (write_back fd c old m)
  write_back-HoldsAll fd c none m s v = v
  write_back-HoldsAll fd c (some old) m s v = record {
    free = v.free;
    is_map = store-IsMap fd c m.connects v.is_map;
    all = store-AllEntries IsGood fd c m.connects s v.all;
  }

  pub refresh-HoldsAll :
      (fd : ℕ) (c : C) (m : ConnectManager C)
      → IsGood fd c
      → HoldsAll IsGood m
      → HoldsAll IsGood (refresh fd c m)
  unfolding refresh
  refresh-HoldsAll fd c m = write_back-HoldsAll fd c (lookup fd m.connects) m

  -- A call that returns with such a manager, or panics for the reason `P`.
  abbrev pub ServesOr : {W : Type 0} → Type 0 → Handled C W → Type 0
  ServesOr P (ended (o, m, w)) = HoldsAll IsGood m
  ServesOr P blocked = ⊥
  ServesOr P panicked = P

  pub weaken : {W P Q : Type 0} → (P → Q) → (r : Handled C W) → ServesOr P r → ServesOr Q r
  weaken f (ended (o, m, w)) s = s
  weaken f blocked s = s
  weaken f panicked s = f s

-- What the parts of an event's handling keep of a connection; `Why` is the reason for which the handling
-- of DecodePacket may panic.
pub record Serving {C W : Type 0} (sys : Sys W) (ses : Session C W) (clock : W → ℕ)
    (IsGood : ℕ → C → Type 0) (Why : C → ConnectManager C → W → Type 0) : Type 0 where
  pub closes :
      (fd : ℕ) (c : C) (m : ConnectManager C) (w : W)
      → IsGood fd c
      → HoldsAll IsGood m
      → ServesOr IsGood ⊥ (silently (ses.close c m w))
  pub decodes :
      (fd : ℕ) (c : C) (m : ConnectManager C) (w : W)
      → IsGood fd c
      → HoldsAll IsGood m
      → ServesOr IsGood (Why c m w) (decode sys ses clock fd c m w)
  pub shakes : (fd : ℕ) (c : C) (w : W) → IsGood fd c → IsGood fd (ses.handshake c w).1
  pub completes : (fd : ℕ) (c : C) → IsGood fd c → IsGood fd (ses.set_handshake_completed c)
  pub writes :
      (fd : ℕ) (c : C) (w : W)
      → IsGood fd c
      → let (r, c', w') = ses.proceed_write c w in
        ((e : Option Error) × (r ≡ returns e)) × IsGood fd c'

module _ {C W : Type 0} (sys : Sys W) (ses : Session C W)
    (Why : C → ConnectManager C → W → Type 0) where
  -- The reason, of a readable event: DecodePacket is called at once, or after the TLS handshake.
  abbrev pub ReadsWhy : ℕ → C → ConnectManager C → W → Type 0
  ReadsWhy fd c m w =
      ((ses.tls_pending c ≡ false) × Why c m w)
      ⊎ (let (e, c', w') = ses.handshake c w in
          (ses.tls_pending c ≡ true)
          × Why (ses.set_handshake_completed c') m (sys.set_nonblock fd true w').1)

  -- Only a readable event of a connection that the manager holds has it.
  abbrev pub EventWhy : Event → ConnectManager C → W → Type 0
  EventWhy ev m w =
      (c : C) × (lookup ev.fd m.connects ≡ some c) × (ev.is_out ≡ false) × ReadsWhy ev.fd c m w

module _ {C W : Type 0} (sys : Sys W) (ses : Session C W) (clock : W → ℕ) (IsGood : ℕ → C → Type 0)
    (Why : C → ConnectManager C → W → Type 0) (serving : Serving sys ses clock IsGood Why) where
  module _ (P : Type 0) where
    abbrev Serves : Handled C W → Type 0
    Serves r = ServesOr IsGood P r

    close_refreshed :
        (fd : ℕ) (c : C) (m : ConnectManager C) (w : W)
        → IsGood fd c
        → HoldsAll IsGood m
        → Serves (silently (ses.close c (refresh fd c m) w))
    close_refreshed fd c m w v s =
        weaken IsGood (λ none. elim none [ ]) (silently (ses.close c (refresh fd c m) w))
          (serving.closes fd c (refresh fd c m) w v (refresh-HoldsAll IsGood fd c m v s))

    decode-Serves :
        (fd : ℕ) (c : C) (m : ConnectManager C) (w : W)
        → (Why c m w → P)
        → IsGood fd c
        → HoldsAll IsGood m
        → Serves (decode sys ses clock fd c m w)
    decode-Serves fd c m w why v s =
        weaken IsGood why (decode sys ses clock fd c m w) (serving.decodes fd c m w v s)

    after_nonblock-Serves :
        (e : Option Errno) (fd : ℕ) (c : C) (m : ConnectManager C) (w : W)
        → (Why c m w → P)
        → IsGood fd c
        → HoldsAll IsGood m
        → Serves (elim e as (λ x. Handled C W) [
          | some x ↦ silently (ses.close c (refresh fd c m) w)
          | none ↦ decode sys ses clock fd c m w
        ])
    after_nonblock-Serves none fd c m w why v s = decode-Serves fd c m w why v s
    after_nonblock-Serves (some x) fd c m w why v s = close_refreshed fd c m w v s

    after_handshake-Serves :
        (fd : ℕ) (e : Option Error) (c : C) (m : ConnectManager C) (w : W)
        → (Why (ses.set_handshake_completed c) m (sys.set_nonblock fd true w).1 → P)
        → IsGood fd c
        → HoldsAll IsGood m
        → Serves (after_handshake sys ses clock fd e c m w)
    unfolding after_handshake
    after_handshake-Serves fd (some e) c m w why v s = close_refreshed fd c m w v s
    after_handshake-Serves fd none c m w why v s =
        let (e, w') = sys.set_nonblock fd true w in
        after_nonblock-Serves e fd (ses.set_handshake_completed c) m w' why
          (serving.completes fd c v) s

    on_readable-Serves :
        (fd : ℕ) (c : C) (m : ConnectManager C) (w : W)
        → (ReadsWhy sys ses Why fd c m w → P)
        → IsGood fd c
        → HoldsAll IsGood m
        → Serves (on_readable sys ses clock fd c m w)
    unfolding on_readable
    on_readable-Serves fd c m w why v s =
        let (e, c', w') = ses.handshake c w in
        elim (Bool-cases (ses.tls_pending c)) [
          | inl pending ↦ prove_then Serves (ses.tls_pending c) _ _ pending (
              after_handshake-Serves fd e c' m w' (λ y. why (inr (pending, y)))
                (serving.shakes fd c w v) s)
          | inr at_once ↦
              prove_else Serves (ses.tls_pending c) _ _ at_once
                (decode-Serves fd c m w (λ y. why (inl (at_once, y))) v s)
        ]

    after_write-Serves :
        (fd : ℕ) (r : Call (Option Error)) (c : C) (m : ConnectManager C) (w : W)
        → ((e : Option Error) × (r ≡ returns e))
        → IsGood fd c
        → HoldsAll IsGood m
        → Serves (after_write sys ses fd r c m w)
    unfolding after_write
    after_write-Serves fd panics c m w (e, h) v s = cc
    after_write-Serves fd (returns none) c m w h v s = refresh-HoldsAll IsGood fd c m v s
    after_write-Serves fd (returns (some e)) c m w h v s = close_refreshed fd c m w v s

    on_writable-Serves :
        (fd : ℕ) (c : C) (m : ConnectManager C) (w : W)
        → IsGood fd c
        → HoldsAll IsGood m
        → Serves (on_writable sys ses fd c m w)
    unfolding on_writable
    on_writable-Serves fd c m w v s =
        let (r, c', w') = ses.proceed_write c w in
        let (back, v') = serving.writes fd c w v in after_write-Serves fd r c' m w' back v' s

    on_event-Serves :
        (p : Poller) (ev : Event) (o : Option C) (m : ConnectManager C) (w : W)
        → ((c : C) → o ≡ some c → ev.is_out ≡ false → ReadsWhy sys ses Why ev.fd c m w → P)
        → ((c : C) → o ≡ some c → IsGood ev.fd c)
        → HoldsAll IsGood m
        → Serves (on_event sys ses clock p ev o m w)
    unfolding on_event
    on_event-Serves p ev none m w why v s = s
    on_event-Serves p ev (some c) m w why v s = elim (Bool-cases ev.is_out) [
      | inl out ↦ prove_then Serves ev.is_out _ _ out (on_writable-Serves ev.fd c m w (v c refl) s)
      | inr readable ↦
          prove_else Serves ev.is_out _ _ readable
            (on_readable-Serves ev.fd c m w (why c refl readable) (v c refl) s)
    ]

  -- One event, over a manager that is such: the handling leaves it such, with nothing that waits for
  -- ever, or it panics for the reason.
  pub handle-Serves :
      (p : Poller) (ev : Event) (m : ConnectManager C) (w : W)
      → HoldsAll IsGood m
      → ServesOr IsGood (EventWhy sys ses Why ev m w) (handle sys ses clock p ev m w)
  unfolding handle get
  handle-Serves p ev m w s =
      prove_else
        (λ r.
          ServesOr IsGood (EventWhy sys ses Why ev m w)
            (of_lock r >>= λ c. on_event sys ses clock p ev c m w))
        m.locked _ _ s.free
        (on_event-Serves _ p ev (lookup ev.fd m.connects) m w (λ c found out y. (c, found, out, y))
          (λ c found. lookup-AllEntries IsGood ev.fd c m.connects s.all found) s)
