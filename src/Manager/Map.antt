-- ===== src/Manager/Map.antt =====
-- server/connectmgr.go: the manager as a finite map. Also the maps of server/routermgr.go.
use netman.Common.{
  ℕ, ◌≡◌, ◌≢◌, refl, ap, subst, inl, inr, false, none, some, List, [], ◌∷◌, ◌==◌, if◌then◌else◌,
  arith, Bool-cases,
}
use netman.Manager.{ConnectManager, lookup, store, delete, lock, add, get, remove}

module _ {ℓ} {C : Type ℓ} where
  -- No descriptor twice.
  abbrev pub IsFresh : ℕ → List (ℕ × C) → Type 0
  IsFresh k [] = Unit {0}
  IsFresh k ((j, c) ∷ m) = (j ≢ k) × IsFresh k m

  abbrev pub IsMap : List (ℕ × C) → Type 0
  IsMap [] = Unit {0}
  IsMap ((j, c) ∷ m) = IsFresh j m × IsMap m

  pub lookup-store :
      (k j : ℕ) (c : C) (m : List (ℕ × C))
      → lookup j (store k c m) ≡ (if k == j then some c else lookup j m)
  lookup-store k j c [] = refl
  lookup-store k j c ((i, d) ∷ m) = ground (arith, lookup-store k j c m)

  pub lookup_fresh : (k : ℕ) (m : List (ℕ × C)) → IsFresh k m → lookup k m ≡ none
  lookup_fresh k [] h = refl
  lookup_fresh k ((j, c) ∷ m) h = ground (arith, lookup_fresh k m)

  pub lookup-delete :
      (k j : ℕ) (m : List (ℕ × C))
      → IsMap m
      → lookup j (delete k m) ≡ (if k == j then none else lookup j m)
  lookup-delete k j [] v = ground arith
  lookup-delete k j ((i, d) ∷ m) v = ground (arith, lookup-delete k j m, lookup_fresh i m)

  store-IsFresh :
      (k j : ℕ) (c : C) (m : List (ℕ × C)) → IsFresh j m → k ≢ j → IsFresh j (store k c m)
  store-IsFresh k j c [] v h = (h, tt)
  store-IsFresh k j c ((i, d) ∷ m) v h = ground (arith, store-IsFresh k j c m v.1 h)

  pub store-IsMap : (k : ℕ) (c : C) (m : List (ℕ × C)) → IsMap m → IsMap (store k c m)
  store-IsMap k c [] v = (tt, tt)
  store-IsMap k c ((i, d) ∷ m) v = elim (Bool-cases (i == k)) [
    | inl same ↦ rw same (subst (λ x. IsFresh x m) (ground arith) v.0, v.1)
    | inr other ↦ rw other (store-IsFresh k i c m v.0 (ground arith), store-IsMap k c m v.1)
  ]

  delete-IsFresh : (k j : ℕ) (m : List (ℕ × C)) → IsFresh j m → IsFresh j (delete k m)
  delete-IsFresh k j [] v = tt
  delete-IsFresh k j ((i, d) ∷ m) v = ground (arith, delete-IsFresh k j m v.1)

  pub delete-IsMap : (k : ℕ) (m : List (ℕ × C)) → IsMap m → IsMap (delete k m)
  delete-IsMap k [] v = tt
  delete-IsMap k ((i, d) ∷ m) v = ground (arith, delete-IsMap k m v.1, delete-IsFresh k i m v.0)

  -- Add on a manager whose lock is free returns, keeps one connection for each descriptor, frees the
  -- lock, and afterwards Get finds the new connection under its descriptor and the old ones elsewhere.
  pub get-add :
      (m : ConnectManager C) (fd j : ℕ) (c : C)
      → m.locked ≡ false
      → IsMap m.connects
      → (m' : ConnectManager C) × (add m fd c ≡ some m')
        × IsMap m'.connects
        × (get m' j ≡ some (if fd == j then some c else lookup j m.connects))
  unfolding add lock get
  get-add m fd j c free v = (
    record { connects = store fd c m.connects; locked = false },
    ground arith,
    store-IsMap fd c m.connects v,
    ap some (lookup-store fd j c m.connects),
  )

  -- Remove on a manager whose lock is free returns, keeps one connection for each descriptor, frees
  -- the lock, and afterwards Get finds nothing under the descriptor and the same as before elsewhere.
  pub get-remove :
      (m : ConnectManager C) (fd j : ℕ)
      → m.locked ≡ false
      → IsMap m.connects
      → (m' : ConnectManager C) × (remove m fd ≡ some m')
        × IsMap m'.connects
        × (get m' j ≡ some (if fd == j then none else lookup j m.connects))
  unfolding remove lock get
  get-remove m fd j free v = (
    record { connects = delete fd m.connects; locked = false },
    ground arith,
    delete-IsMap fd m.connects v,
    ap some (lookup-delete fd j m.connects v),
  )
