-- ===== src/Wait/Handed.antt =====
-- eventloop/epoll.go over server/router.go: what a readable event makes of a connection's stream, and
-- what it leaves where the connection is closed.
use netman.Common.{
  ℕ, ◌≡◌, ◌<◌, refl, sym, ap, subst, ◌∙◌, ◌⊎◌, inl, inr, Bool, false, Option, none, some, List,
  Bytes, ◌++◌, ◌==◌, length, if_then, prove_else, ==_refl,
}
use netman.Kernel.{Sys}
use netman.Host.{Host}
use netman.Util.Message.{Message}
use netman.Util.DataPack.{DataPacker}
use netman.Connect.Tls.{Tls}
use netman.Connect.Order.{IsQueued}
use netman.Manager.{ConnectManager, ended, blocked, panicked, lookup, delete}
use netman.Manager.Map.{IsMap, lookup-store, lookup-delete, store-IsMap}
use netman.Router.{RouterProtocol}
use netman.Router.ClearAll.{close_removes}
use netman.Router.Stream.{frame, stream}
use netman.Wait.{
  Session, Handled, Reaction, hang_up, close_with, if_udp, react, refresh, silently, write_back,
}
use netman.Wait.Codes.{is_code}
use netman.Wait.Served.{IsServing, sessions}

module _ {W : Type 0} (incoming : W → Bytes) (clock : W → ℕ) where
  -- What a readable event on the connection `c` makes of its stream. Without a message the connection
  -- is closed, or it has lost nothing of the stream, or a packet without a body was dropped from it.
  -- A message is the next packet of the stream, its body whole, and not empty unless it is a
  -- websocket's.
  abbrev pub Handed : ℕ → RouterProtocol → W → Handled RouterProtocol W → Type 0
  Handed fd c w (ended (none, m', w')) =
      (lookup fd m'.connects ≡ none)
      ⊎ ((c' : RouterProtocol) × (lookup fd m'.connects ≡ some c')
          × ((stream incoming c' w' ≡ stream incoming c w)
              ⊎ ((msg : Message) × (msg.data_len ≡ 0)
                  × (frame msg ++ incoming w' ≡ stream incoming c w))))
  Handed fd c w (ended (some (c', msg), m', w')) =
      (lookup fd m'.connects ≡ some c')
      × (c'.last_message_time ≡ clock w')
      × (msg.is_web_socket ≡ false → 0 < length msg.body)
      × (msg.data_len ≡ length msg.body)
      × (frame msg ++ incoming w' ≡ stream incoming c w)
  Handed fd c w blocked = ⊥
  Handed fd c w panicked = ⊥

lookup_written :
    (fd : ℕ) (c : RouterProtocol) (old : Option RouterProtocol) (m : ConnectManager RouterProtocol)
    → ((c₀ : RouterProtocol) × (old ≡ some c₀))
    → lookup fd (write_back fd c old m).connects ≡ some c
lookup_written fd c none m (c₀, e) = cc
lookup_written fd c (some old) m h =
    lookup-store fd fd c m.connects ∙ if_then (fd == fd) _ _ (==_refl fd)

-- The new state of a connection that the map holds is found there.
pub lookup-refresh :
    (fd : ℕ) (c c₀ : RouterProtocol) (m : ConnectManager RouterProtocol)
    → lookup fd m.connects ≡ some c₀
    → lookup fd (refresh fd c m).connects ≡ some c
unfolding refresh
lookup-refresh fd c c₀ m found = lookup_written fd c (lookup fd m.connects) m (c₀, found)

refresh-IsMap :
    (fd : ℕ) (c : RouterProtocol) (old : Option RouterProtocol) (m : ConnectManager RouterProtocol)
    → IsMap m.connects
    → IsMap (write_back fd c old m).connects
refresh-IsMap fd c none m v = v
refresh-IsMap fd c (some old) m v = store-IsMap fd c m.connects v

write_back-locked :
    (fd : ℕ) (c : RouterProtocol) (old : Option RouterProtocol) (m : ConnectManager RouterProtocol)
    → (write_back fd c old m).locked ≡ m.locked
write_back-locked fd c none m = refl
write_back-locked fd c (some old) m = refl

module _ {W : Type 0} (sys : Sys W) (tls : Tls W) (d : DataPacker) (udp_buffer : ℕ) (host : Host W)
    (incoming : W → Bytes) (clock : W → ℕ) where
  abbrev ses : Session RouterProtocol W
  ses = sessions sys tls d udp_buffer host

  close-Handed :
      (fd : ℕ) (c₀ c : RouterProtocol) (w₀ : W) (es : List (ℕ × RouterProtocol)) (w : W)
      (locked : Bool)
      → IsQueued c.base
      → c.fd ≡ fd
      → locked ≡ false
      → IsMap es
      → Handed incoming clock fd c₀ w₀
          (silently (ses.close c (record { connects = es; locked = locked }) w))
  close-Handed fd c₀ c w₀ es w locked q at free v =
      let (w', e) = close_removes sys host c es w q.attached in
      subst (λ r. Handed incoming clock fd c₀ w₀ (silently r))
        (sym (ap (λ b. ses.close c (record { connects = es; locked = b }) w) free ∙ e))
        (inl (
          ap (λ k. lookup fd (delete k es)) at
          ∙ lookup-delete fd fd es v
          ∙ if_then (fd == fd) _ _ (==_refl fd)))

  pub close_refreshed-Handed :
      (fd : ℕ) (c₀ c : RouterProtocol) (w₀ : W) (m : ConnectManager RouterProtocol) (w : W)
      → IsQueued c.base
      → c.fd ≡ fd
      → IsServing m
      → Handed incoming clock fd c₀ w₀ (silently (ses.close c (refresh fd c m) w))
  unfolding refresh
  close_refreshed-Handed fd c₀ c w₀ m w q at s =
      let m' = write_back fd c (lookup fd m.connects) m in
      close-Handed fd c₀ c w₀ m'.connects w m'.locked q at
        (write_back-locked fd c (lookup fd m.connects) m ∙ s.free)
        (refresh-IsMap fd c (lookup fd m.connects) m s.is_map)

  pub react-Handed :
      (r : Reaction) (fd : ℕ) (c c' : RouterProtocol) (m : ConnectManager RouterProtocol) (w w' : W)
      → is_code r ≡ false
      → lookup fd m.connects ≡ some c
      → IsQueued c'.base
      → c'.fd ≡ fd
      → c'.is_udp ≡ false
      → stream incoming c' w' ≡ stream incoming c w
      → IsServing m
      → Handed incoming clock fd c w (react sys ses r fd c' (refresh fd c' m) w')
  unfolding react
  react-Handed hang_up fd c c' m w w' h found q at tcp same s =
      close_refreshed-Handed fd c c' w m w' q at s
  react-Handed (close_with n) fd c c' m w w' h found q at tcp same s = cc
  react-Handed if_udp fd c c' m w w' h found q at tcp same s =
      prove_else (Handed incoming clock fd c w) c'.is_udp _ _ tcp
        (inr (c', lookup-refresh fd c' c m found, inl same))
