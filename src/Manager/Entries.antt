-- ===== src/Manager/Entries.antt =====
-- server/connectmgr.go: what holds of every connection in the map, under its descriptor.
use netman.Common.{
  ℕ, ◌≡◌, subst, Bool, false, some, filter_if, List, [], ◌∷◌, ◌==◌, arith, Bool-cases, inl, inr,
  choose,
}
use netman.Manager.{ConnectManager, lookup, store, delete}
use netman.Manager.Map.{IsFresh, IsMap}

module _ {C : Type 0} (P : ℕ → C → Type 0) where
  abbrev pub AllEntries : List (ℕ × C) → Type 0
  AllEntries [] = Unit {0}
  AllEntries ((k, c) ∷ es) = P k c × AllEntries es

  -- A manager with a free lock and one connection for each descriptor, all of which are such.
  pub record HoldsAll (m : ConnectManager C) : Type 0 where
    pub free : m.locked ≡ false
    pub is_map : IsMap m.connects
    pub all : AllEntries m.connects

  pub lookup-AllEntries :
      (k : ℕ) (c : C) (es : List (ℕ × C)) → AllEntries es → lookup k es ≡ some c → P k c
  lookup-AllEntries k c [] v e = cc
  lookup-AllEntries k c ((j, d) ∷ es) v e = elim (Bool-cases (j == k)) [
    | inl same ↦ subst (P k) (ground arith) (subst (λ x. P x d) (ground arith) v.0)
    | inr other ↦ lookup-AllEntries k c es v.1 (ground arith)
  ]

  pub store-AllEntries :
      (k : ℕ) (c : C) (es : List (ℕ × C)) → P k c → AllEntries es → AllEntries (store k c es)
  store-AllEntries k c [] s v = (s, tt)
  store-AllEntries k c ((j, d) ∷ es) s v =
      choose AllEntries (j == k) (s, v.1) (v.0, store-AllEntries k c es s v.1)

  pub delete-AllEntries : (k : ℕ) (es : List (ℕ × C)) → AllEntries es → AllEntries (delete k es)
  delete-AllEntries k [] v = tt
  delete-AllEntries k ((j, d) ∷ es) v =
      choose AllEntries (j == k) v.1 (v.0, delete-AllEntries k es v.1)

  pub filter-AllEntries :
      (test : ℕ × C → Bool) (es : List (ℕ × C)) → AllEntries es → AllEntries (filter_if test es)
  filter-AllEntries test [] v = tt
  filter-AllEntries test ((j, c) ∷ es) v =
      choose AllEntries (test (j, c)) (v.0, filter-AllEntries test es v.1)
        (filter-AllEntries test es v.1)

module _ {C : Type 0} (test : ℕ × C → Bool) where
  filter-IsFresh : (k : ℕ) (es : List (ℕ × C)) → IsFresh k es → IsFresh k (filter_if test es)
  filter-IsFresh k [] v = tt
  filter-IsFresh k ((j, c) ∷ es) v =
      choose (IsFresh k) (test (j, c)) (v.0, filter-IsFresh k es v.1) (filter-IsFresh k es v.1)

  pub filter-IsMap : (es : List (ℕ × C)) → IsMap es → IsMap (filter_if test es)
  filter-IsMap [] v = tt
  filter-IsMap ((j, c) ∷ es) v =
      choose IsMap (test (j, c)) (filter-IsFresh j es v.0, filter-IsMap es v.1)
        (filter-IsMap es v.1)
