-- ===== src/Util/Context/Storage.antt =====
-- util/context.go: the values that handlers leave for each other.
use netman.Common.{
  ◌≡◌, refl, sym, subst, ◌∙◌, Bool, true, false, some, List, [], ◌∷◌, if◌then◌else◌, Bool-cases,
  inl, inr, if_else,
}
use netman.Util.Context.{Context, load, save, set, get, get_connect, get_message}

-- Go's equality on keys that it can compare.
pub record IsEquality {K : Type 0} (same : K → K → Bool) : Type 0 where
  pub same_refl : (k : K) → same k k ≡ true
  pub same_equal : (j k : K) → same j k ≡ true → j ≡ k

collapse :
    {A : Type 0} (b : Bool) (x y z : A)
    → (if b then x else z) ≡ (if b then x else (if b then y else z))
collapse true x y z = refl
collapse false x y z = refl

module _ {K : Type 0} (same : K → K → Bool) (laws : IsEquality same) where
  -- Two keys that are the same as a third are the same.
  same_both : (i j k : K) → same i j ≡ true → same k j ≡ true → same i k ≡ true
  same_both i j k e f =
      subst (λ x. same x k ≡ true) (laws.same_equal k j f ∙ sym (laws.same_equal i j e))
        (laws.same_refl k)

module _ {K V : Type 0} (same : K → K → Bool) (laws : IsEquality same) where
  load-save :
      (k j : K) (v : V) (es : List (K × V))
      → load same j (save same k v es) ≡ (if same k j then some v else load same j es)
  load-save k j v [] = refl
  load-save k j v ((i, u) ∷ es) = elim (Bool-cases (same i k)) [
    | inl here ↦
        rw here
          (rw (laws.same_equal i k here) (collapse (same k j) (some v) (some u) (load same j es)))
    | inr there ↦ rw there (elim (Bool-cases (same i j)) [
      | inl ij ↦ rw ij (
          sym (
            if_else (same k j) _ _ (elim (Bool-cases (same k j)) [
              | inl kj ↦ cc (same_both same laws i j k ij kj)
              | inr apart ↦ apart
            ])))
      | inr apart ↦ rw apart (load-save k j v es)
    ])
  ]

  -- Where the keys' equality is one, Get after Set finds the new value under its key, and what was
  -- there before under every other key; the request is as before.
  pub get-set :
      (C : Type 0) (c : Context C K V) (k j : K) (v : V)
      → (get same (set same c k v) j ≡ (if same k j then some v else get same c j))
        × (get_connect (set same c k v) ≡ get_connect c)
        × (get_message (set same c k v) ≡ get_message c)
  unfolding get set get_connect get_message
  get-set C c k j v = (load-save k j v c.storage, refl, refl)
