-- ===== src/Wait/Served.antt =====
-- eventloop/epoll.go over server/router.go and server/connectmgr.go: what holds of a server's TCP
-- connections between two events.
use netman.Common.{
  ℕ, ◌≡◌, refl, sym, ap, subst, ◌∙◌, inl, inr, Bool, false, Option, none, some, List, [], ◌∷◌, ◌==◌,
  arith, Bool-cases, if_then, ==_refl,
}
use netman.Kernel.{Sys}
use netman.Host.{Host}
use netman.Util.DataPack.{DataPacker}
use netman.Connect.{BaseConnect, read, write}
use netman.Connect.Tls.{Tls}
use netman.Connect.Order.{IsQueued}
use netman.Manager.{ConnectManager, lookup, store, delete}
use netman.Manager.Map.{IsMap, store-IsMap, delete-IsMap}
use netman.Manager.Entries.{AllEntries, HoldsAll, delete-AllEntries}
use netman.Router.{RouterProtocol}
use netman.Router.Layout.{default_packer}
use netman.Router.ClearAll.{close_removes}
use netman.Router.Stream.{IsValid}
use netman.Router.Stream.Delivery.{enough}
use netman.Wait.{Session, Handled, write_back, refresh, silently}
use netman.Wait.Routers.{router_session}
use netman.Wait.Serving.{ServesOr, refresh-HoldsAll}
use netman.Wait.Frame.{ReadKeeps}
use netman.Wait.Codes.{ReadsCodeless}

-- A connection of a stream, under its own descriptor: it belongs to a poller and waits for a writable
-- socket if it has bytes left, and it is between two packets or inside one.
pub record IsServed (fd : ℕ) (c : RouterProtocol) : Type 0 where
  pub under : c.fd ≡ fd
  pub tcp : c.is_udp ≡ false
  pub queued : IsQueued c.base
  pub valid : IsValid c

abbrev pub AllServed : List (ℕ × RouterProtocol) → Type 0
AllServed es = AllEntries IsServed es

-- A manager with a free lock, with one connection for each descriptor, and all of them served.
abbrev pub IsServing : ConnectManager RouterProtocol → Type 0
IsServing m = HoldsAll IsServed m

pub refresh-IsServing :
    (fd : ℕ) (c : RouterProtocol) (m : ConnectManager RouterProtocol)
    → IsServed fd c
    → IsServing m
    → IsServing (refresh fd c m)
refresh-IsServing fd c m = refresh-HoldsAll IsServed fd c m

-- A call that returns, and leaves a serving manager.
abbrev pub Serves : {W : Type 0} → Handled RouterProtocol W → Type 0
Serves r = ServesOr IsServed ⊥ r

-- Serving, but for the connection of one descriptor, which is about to be closed.
pub record IsServingBut (fd : ℕ) (m : ConnectManager RouterProtocol) : Type 0 where
  pub but_free : m.locked ≡ false
  pub but_map : IsMap m.connects
  pub but_all : AllServed (delete fd m.connects)

delete-store-AllServed :
    (k : ℕ) (c : RouterProtocol) (es : List (ℕ × RouterProtocol))
    → AllServed es
    → AllServed (delete k (store k c es))
delete-store-AllServed k c [] v = subst AllServed (sym (if_then (k == k) _ _ (ground arith))) tt
delete-store-AllServed k c ((j, d) ∷ es) v = elim (Bool-cases (j == k)) [
  | inl same ↦ rw (same, ==_refl k) v.1
  | inr other ↦ rw (other, other) (v.0, delete-store-AllServed k c es v.1)
]

pub IsServing-IsServingBut :
    (fd : ℕ) (m : ConnectManager RouterProtocol) → IsServing m → IsServingBut fd m
IsServing-IsServingBut fd m v = record {
  but_free = v.free;
  but_map = v.is_map;
  but_all = delete-AllEntries IsServed fd m.connects v.all;
}

write_back-IsServingBut :
    (fd : ℕ) (c : RouterProtocol) (old : Option RouterProtocol) (m : ConnectManager RouterProtocol)
    → IsServing m
    → IsServingBut fd (write_back fd c old m)
write_back-IsServingBut fd c none m v = IsServing-IsServingBut fd m v
write_back-IsServingBut fd c (some old) m v = record {
  but_free = v.free;
  but_map = store-IsMap fd c m.connects v.is_map;
  but_all = delete-store-AllServed fd c m.connects v.all;
}

pub refresh-IsServingBut :
    (fd : ℕ) (c : RouterProtocol) (m : ConnectManager RouterProtocol)
    → IsServing m
    → IsServingBut fd (refresh fd c m)
unfolding refresh
refresh-IsServingBut fd c m = write_back-IsServingBut fd c (lookup fd m.connects) m

-- What the poller relies on in crypto/tls: it reads, writes and shakes hands through the connection's
-- own Read and Write, so it keeps what these keep; and its reads fail with no error of the websocket
-- protocol.
pub record TlsLaws {W : Type 0} (sys : Sys W) (tls : Tls W) : Type 0 where
  pub same_fd : (c : BaseConnect) (w : W) → (tls.handshake (read sys) (write sys) c w).1.fd ≡ c.fd
  pub same_udp :
      (c : BaseConnect) (w : W) → (tls.handshake (read sys) (write sys) c w).1.is_udp ≡ c.is_udp
  pub queued :
      (c : BaseConnect) (w : W) → IsQueued c → IsQueued (tls.handshake (read sys) (write sys) c w).1
  pub read_keeps : ReadKeeps (tls.tls_read (read sys))
  pub read_codeless : ReadsCodeless (tls.tls_read (read sys))

module _ {W : Type 0} (sys : Sys W) (tls : Tls W) (d : DataPacker) (udp_buffer : ℕ)
    (host : Host W) where
  abbrev pub sessions : Session RouterProtocol W
  sessions = router_session sys tls (default_packer d) udp_buffer host enough

  -- Close of a connection with a poller, over a manager whose other connections are good.
  pub close_at_holding :
      (IsGood : ℕ → RouterProtocol → Type 0) (c : RouterProtocol) (es : List (ℕ × RouterProtocol))
      (w : W) (locked : Bool)
      → IsQueued c.base
      → locked ≡ false
      → IsMap es
      → AllEntries IsGood (delete c.fd es)
      → ServesOr IsGood ⊥
          (silently (sessions.close c (record { connects = es; locked = locked }) w))
  close_at_holding IsGood c es w locked q free v s =
      let (w', e) = close_removes sys host c es w q.attached in
      subst (λ r. ServesOr IsGood ⊥ (silently r))
        (sym (ap (λ b. sessions.close c (record { connects = es; locked = b }) w) free ∙ e))
        (record { free = refl; is_map = delete-IsMap c.fd es v; all = s })

  pub close-Serves :
      (fd : ℕ) (c : RouterProtocol) (m : ConnectManager RouterProtocol) (w : W)
      → IsQueued c.base
      → c.fd ≡ fd
      → IsServingBut fd m
      → Serves (silently (sessions.close c m w))
  close-Serves fd c m w q at v =
      close_at_holding IsServed c m.connects w m.locked q v.but_free v.but_map
        (subst (λ k. AllServed (delete k m.connects)) (sym at) v.but_all)
