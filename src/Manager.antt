-- ===== src/Manager.antt =====
-- server/connectmgr.go: the connections of a server by their descriptor, behind one lock.
pub mod Map
pub mod Entries
pub mod Lock
pub mod Heartbeat
use netman.Common.{
  ℕ, ◌+◌, Bool, true, false, not, Option, none, some, List, [], ◌∷◌, ◌++◌, map, length, ltb, ◌==◌,
  if◌then◌else◌,
}
use netman.Kernel.{Sys}

-- A map from descriptors to connections, as the list of its entries.
pub record ConnectManager {ℓ} (C : Type ℓ) : Type ℓ where
  pub connects : List (ℕ × C)
  pub locked : Bool

module _ {ℓ} {C : Type ℓ} where
  unfoldable pub new_connect_manager : ConnectManager C
  new_connect_manager = record { connects = []; locked = false }

  abbrev pub lookup : ℕ → List (ℕ × C) → Option C
  lookup k [] = none
  lookup k ((j, c) ∷ m) = if j == k then some c else lookup k m

  abbrev pub store : ℕ → C → List (ℕ × C) → List (ℕ × C)
  store k c [] = (k, c) ∷ []
  store k c ((j, d) ∷ m) = if j == k then (k, c) ∷ m else (j, d) ∷ store k c m

  abbrev pub delete : ℕ → List (ℕ × C) → List (ℕ × C)
  delete k [] = []
  delete k ((j, d) ∷ m) = if j == k then m else (j, d) ∷ delete k m

  -- Lock: a goroutine that holds the lock already waits for ever, which is `none`.
  unfoldable pub lock : ConnectManager C → Option (ConnectManager C)
  lock m = if m.locked then none else some (record m { locked = true })

  unfoldable pub unlock : ConnectManager C → ConnectManager C
  unlock m = record m { locked = false }

  -- What a method does between Lock and the deferred Unlock.
  abbrev pub locked_map :
      Option (ConnectManager C) → (List (ℕ × C) → List (ℕ × C)) → Option (ConnectManager C)
  locked_map none f = none
  locked_map (some m) f = some (record m { connects = f m.connects; locked = false })

  -- Add, with the number of connections.
  unfoldable pub add : ConnectManager C → ℕ → C → Option (ConnectManager C)
  unfolding lock
  add m fd c = locked_map (lock m) (store fd c)

  unfoldable pub get : ConnectManager C → ℕ → Option (Option C)
  unfolding lock
  get m fd = if m.locked then none else some (lookup fd m.connects)

  unfoldable pub remove : ConnectManager C → ℕ → Option (ConnectManager C)
  unfolding lock
  remove m fd = locked_map (lock m) (delete fd)

  unfoldable pub len : ConnectManager C → ℕ
  len m = length m.connects

  unfoldable pub get_connects : ConnectManager C → List C
  get_connects m = map (λ (e : ℕ × C). e.1) m.connects

-- How a call ends: it returns, it waits for ever, or it panics.
pub data Ended {ℓ} (A : Type ℓ) : Type ℓ where
  ended : A → Ended A
  blocked : Ended A
  panicked : Ended A

infixl 5 ◌>>=◌
abbrev pub ◌>>=◌ {ℓ κ} : {A : Type ℓ} {B : Type κ} → Ended A → (A → Ended B) → Ended B
ended a >>= f = f a
blocked >>= f = blocked
panicked >>= f = panicked

abbrev pub of_lock {ℓ} : {A : Type ℓ} → Option A → Ended A
of_lock none = blocked
of_lock (some a) = ended a

-- iface.IConnect, as far as the manager calls it. `close` is the connection's Close, which itself
-- calls the manager; `epoll_remove` is `GetPoller().Remove(GetFd())`.
pub record Connect (C W : Type 0) : Type 0 where
  pub fd : C → ℕ
  pub epfd : C → ℕ
  pub last_message_time : C → ℕ
  pub epoll_remove : C → W → W
  pub close : C → ConnectManager C → W → Ended (ConnectManager C × W)

module _ {C W : Type 0} (sys : Sys W) (con : Connect C W) where
  -- ClearByEpFd, over the entries of the map in one of its orders.
  unfoldable pub clear_entries : ℕ → List (ℕ × C) → W → List (ℕ × C) × W
  clear_entries epfd [] w = ([], w)
  clear_entries epfd ((k, c) ∷ es) w =
      let w₁ = if con.epfd c == epfd then (sys.close (con.fd c) (con.epoll_remove c w)).1 else w in
      let (rest, w₂) = clear_entries epfd es w₁ in
      (if con.epfd c == epfd then rest else (k, c) ∷ rest, w₂)

  unfoldable pub clear_by_ep_fd : ConnectManager C → ℕ → W → Ended (ConnectManager C × W)
  unfolding lock unlock clear_entries
  clear_by_ep_fd m epfd w = do
    m₁ ← of_lock (lock m)
    let r = clear_entries epfd m₁.connects w
    ended (unlock (record m₁ { connects = r.0 }), r.1)

  -- The loop of ClearAll.
  unfoldable pub close_each : List (ℕ × C) → ConnectManager C → W → Ended (ConnectManager C × W)
  close_each [] m w = ended (m, w)
  close_each ((k, c) ∷ es) m w = con.close c m w >>= λ (m', w'). close_each es m' w'

  unfoldable pub clear_all : ConnectManager C → W → Ended (ConnectManager C × W)
  unfolding lock unlock close_each
  clear_all m w = do
    m₁ ← of_lock (lock m)
    (m₂, w₂) ← close_each m₁.connects m₁ w
    ended (unlock (record m₂ { connects = [] }), w₂)

  -- HeartbeatCheck, one connection: `now` and `idle` in seconds, `now - last < idle` over Go's int64.
  unfoldable pub check_one : ℕ → ℕ → C → ConnectManager C → W → Ended (ConnectManager C × W)
  unfolding remove
  check_one now idle c m w =
      if ltb now (con.last_message_time c + idle)
      then ended (m, w)
      else (con.close c m w >>= λ (m₁, w₁).
          of_lock (remove m₁ (con.fd c)) >>= λ m₂. ended (m₂, con.epoll_remove c w₁))

  -- HeartbeatCheck, one tick, over the connections in one of the map's orders.
  unfoldable pub check_all :
      ℕ → ℕ → List (ℕ × C) → ConnectManager C → W → Ended (ConnectManager C × W)
  unfolding check_one
  check_all now idle [] m w = ended (m, w)
  check_all now idle ((k, c) ∷ es) m w =
      check_one now idle c m w >>= λ (m', w'). check_all now idle es m' w'

  unfoldable pub heartbeat_tick : ℕ → ℕ → ConnectManager C → W → Ended (ConnectManager C × W)
  unfolding check_all
  heartbeat_tick now idle m w = check_all now idle m.connects m w
