-- ===== src/Manager/Heartbeat.antt =====
-- server/connectmgr.go, HeartbeatCheck: one tick, over connections whose Close removes them from the
-- manager.
use netman.Common.{
  ℕ, ◌+◌, ◌≡◌, ◌≢◌, refl, sym, ap, ◌∙◌, Bool, true, false, some, List, [], ◌∷◌, ◌++◌, append_assoc,
  filter_if, ◌==◌, ltb, arith, Bool-cases, inl, inr, if_then, if_else, subst,
}
use netman.Kernel.{Sys}
use netman.Manager.{
  ConnectManager, Connect, ended, delete, lock, remove, of_lock, check_one, check_all,
  heartbeat_tick, ◌>>=◌,
}
use netman.Manager.Map.{IsFresh, IsMap}

module _ {C : Type 0} where
  IsFresh-around :
      (j k : ℕ) (c : C) (kept es : List (ℕ × C))
      → IsFresh j (kept ++ (k, c) ∷ es)
      → IsFresh j (kept ++ es) × (k ≢ j)
  IsFresh-around j k c [] es v = (v.1, v.0)
  IsFresh-around j k c ((i, d) ∷ kept) es v =
      let (fresh, other) = IsFresh-around j k c kept es v.1 in ((v.0, fresh), other)

  IsMap-around :
      (k : ℕ) (c : C) (kept es : List (ℕ × C))
      → IsMap (kept ++ (k, c) ∷ es)
      → IsMap (kept ++ es) × IsFresh k (kept ++ es)
  IsMap-around k c [] es v = (v.1, v.0)
  IsMap-around k c ((i, d) ∷ kept) es v =
      let (m, fresh) = IsMap-around k c kept es v.1 in
      let (fresh_i, other) = IsFresh-around i k c kept es v.0 in
      ((fresh_i, m), (λ e. other (sym e), fresh))

  delete_around :
      (k : ℕ) (c : C) (kept es : List (ℕ × C))
      → IsMap (kept ++ (k, c) ∷ es)
      → delete k (kept ++ (k, c) ∷ es) ≡ kept ++ es
  delete_around k c [] es v = if_then (k == k) _ _ (ground arith)
  delete_around k c ((i, d) ∷ kept) es v =
      let other = (IsFresh-around i k c kept es v.0).1 in
      if_else (i == k) _ _ (ground arith) ∙ ap (◌∷◌ (i, d)) (delete_around k c kept es v.1)

  delete_fresh : (k : ℕ) (m : List (ℕ × C)) → IsFresh k m → delete k m ≡ m
  delete_fresh k [] v = refl
  delete_fresh k ((i, d) ∷ m) v =
      if_else (i == k) _ _ (ground arith) ∙ ap (◌∷◌ (i, d)) (delete_fresh k m v.1)

-- A manager whose lock is free.
abbrev pub holding : {C : Type 0} → List (ℕ × C) → ConnectManager C
holding es = record { connects = es; locked = false }

-- What the tick relies on: Close of a connection in use returns, and removes it from the manager.
abbrev pub ClosesItself : {C W : Type 0} → Connect C W → (C → Type 0) → Type 0
ClosesItself {C} {W} con IsLive =
    (c : C) (es : List (ℕ × C)) (w : W)
    → IsLive c
    → (w' : W) × (con.close c (holding es) w ≡ ended (holding (delete (con.fd c) es), w'))

module _ {C W : Type 0} (sys : Sys W) (con : Connect C W) (IsLive : C → Type 0)
    (closes : ClosesItself con IsLive) (now idle : ℕ) where
  -- A message came less than the idle time ago.
  abbrev pub is_recent : ℕ × C → Bool
  is_recent e = ltb now (con.last_message_time e.1 + idle)

  -- The entries are in use, each under its own descriptor.
  abbrev pub AreLive : List (ℕ × C) → Type 0
  AreLive [] = Unit {0}
  AreLive ((k, c) ∷ es) = (con.fd c ≡ k) × IsLive c × AreLive es

  remove-around :
      (k : ℕ) (c : C) (kept es : List (ℕ × C))
      → IsMap (kept ++ (k, c) ∷ es)
      → remove (holding (delete k (kept ++ (k, c) ∷ es))) k ≡ some (holding (kept ++ es))
  unfolding remove lock
  remove-around k c kept es v =
      ap (λ m. some (holding (delete k m))) (delete_around k c kept es v)
      ∙ ap (λ m. some (holding m)) (delete_fresh k (kept ++ es) (IsMap-around k c kept es v).1)

  check_one_stale :
      (k : ℕ) (c : C) (kept es : List (ℕ × C)) (w : W)
      → IsMap (kept ++ (k, c) ∷ es)
      → con.fd c ≡ k
      → IsLive c
      → is_recent (k, c) ≡ false
      → (w' : W) × (check_one sys con now idle c (holding (kept ++ (k, c) ∷ es)) w
          ≡ ended (holding (kept ++ es), w'))
  unfolding check_one
  check_one_stale k c kept es w v at live stale =
      let (w₁, closed) = closes c (kept ++ (k, c) ∷ es) w live in
      (
        con.epoll_remove c w₁,
        if_else (ltb now (con.last_message_time c + idle)) _ _ stale
            ∙ ap
                (λ r. r >>= λ (m₁, w₂).
                  of_lock (remove m₁ (con.fd c)) >>= λ m₂. ended (m₂, con.epoll_remove c w₂))
                closed
            ∙ ap
                (λ j. of_lock (remove (holding (delete j (kept ++ (k, c) ∷ es))) j) >>= λ m₂.
                  ended (m₂, con.epoll_remove c w₁))
                at
            ∙ ap (λ r. of_lock r >>= λ m₂. ended (m₂, con.epoll_remove c w₁))
                (remove-around k c kept es v),
      )

  check_one_recent :
      (e : ℕ × C) (m : ConnectManager C) (w : W)
      → is_recent e ≡ true
      → check_one sys con now idle e.1 m w ≡ ended (m, w)
  unfolding check_one
  check_one_recent e m w recent = if_then (is_recent e) _ _ recent

  check_all_keeps :
      (kept es : List (ℕ × C)) (w : W)
      → IsMap (kept ++ es)
      → AreLive es
      → (w' : W) × (check_all sys con now idle es (holding (kept ++ es)) w
          ≡ ended (holding (kept ++ filter_if is_recent es), w'))
  unfolding check_all
  check_all_keeps kept [] w v live = (w, refl)
  check_all_keeps kept ((k, c) ∷ es) w v live = elim (Bool-cases (is_recent (k, c))) [
    | inl recent ↦
        let before = kept ++ (k, c) ∷ [] in
        let same : before ++ es ≡ kept ++ (k, c) ∷ es = append_assoc kept ((k, c) ∷ []) es in
        let (w', rest) = check_all_keeps before es w (subst IsMap (sym same) v) live.2 in
        (
          w',
          ap (λ r. r >>= λ (m', w''). check_all sys con now idle es m' w'')
                (check_one_recent (k, c) (holding (kept ++ (k, c) ∷ es)) w recent)
              ∙ ap (λ m. check_all sys con now idle es (holding m) w) (sym same)
              ∙ rest
              ∙ ap (λ m. ended (holding m, w'))
                  (append_assoc kept ((k, c) ∷ []) (filter_if is_recent es)
                    ∙ ap (◌++◌ kept) (sym (if_then (is_recent (k, c)) _ _ recent))),
        )
    | inr stale ↦
        let (w₁, one) = check_one_stale k c kept es w v live.0 live.1 stale in
        let (w', rest) = check_all_keeps kept es w₁ (IsMap-around k c kept es v).0 live.2 in
        (
          w',
          ap (λ r. r >>= λ (m', w''). check_all sys con now idle es m' w'') one
              ∙ rest
              ∙ ap (λ fs. ended (holding (kept ++ fs), w'))
                  (sym (if_else (is_recent (k, c)) _ _ stale)),
        )
  ]

  -- One tick of the heartbeat on a manager whose lock is free, with one connection for each
  -- descriptor, all of them in use, and each of which returns from its Close and removes itself by it:
  -- the tick returns with the lock free, and keeps exactly the connections whose last message came
  -- less than the idle time ago, in their order.
  pub heartbeat_tick_keeps :
      (es : List (ℕ × C)) (w : W)
      → IsMap es
      → AreLive es
      → (w' : W) × (heartbeat_tick sys con now idle (holding es) w
          ≡ ended (holding (filter_if is_recent es), w'))
  unfolding heartbeat_tick
  heartbeat_tick_keeps es w v live = check_all_keeps [] es w v live
