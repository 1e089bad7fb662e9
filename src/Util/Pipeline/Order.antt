-- ===== src/Util/Pipeline/Order.antt =====
-- util/pipeline.go: the stages run in the order in which they were added.
use netman.Common.{
  ℕ, suc, ◌≡◌, refl, ap, ◌∙◌, some, List, [], ◌∷◌, ◌++◌, length, length-append, arith, if_else,
  ◌==◌, ◌<◌, leb,
}
use mathlib.Core.List.{reverse, reverse-cons, foldl}
use mathlib.Core.Option
use netman.Util.Pipeline.{
  NextFunc, Stage, reduce_from, array_reduce, new_pipeline, send, through, carry, then_,
}

-- The stages around a destination, the first outermost.
abbrev pub nest : {A R : Type 0} → List (Stage A R) → NextFunc A R → NextFunc A R
nest [] destination v = destination v
nest (stage ∷ rest) destination v = stage v (nest rest destination)

reduce_from_later :
    {X Y : Type 0} (i : ℕ) (y initial : Y) (callable : Y → X → Y) (xs : List X)
    → reduce_from (suc i) (some y) callable initial xs ≡ some (foldl callable y xs)
unfolding reduce_from
reduce_from_later i y initial callable [] = refl
reduce_from_later i y initial callable (x ∷ xs) =
    rw (if_else (suc i == 0) (some initial) (some y) (ground arith))
      (reduce_from_later (suc i) (callable y x) initial callable xs)

-- ArrayReduce is a left fold, on a slice that is not empty.
array_reduce-foldl :
    {X Y : Type 0} (x : X) (xs : List X) (callable : Y → X → Y) (initial : Y)
    → array_reduce (x ∷ xs) callable initial ≡ some (foldl callable initial (x ∷ xs))
unfolding array_reduce reduce_from
array_reduce-foldl x xs callable initial =
    reduce_from_later 0 (callable initial x) initial callable xs

foldl-snoc :
    {X Y : Type 0} (f : Y → X → Y) (y : Y) (xs : List X) (x : X)
    → foldl f y (xs ++ x ∷ []) ≡ f (foldl f y xs) x
foldl-snoc f y [] x = refl
foldl-snoc f y (z ∷ xs) x = foldl-snoc f (f y z) xs x

fold-reverse :
    {A R : Type 0} (stages : List (Stage A R)) (destination : NextFunc A R)
    → foldl carry destination (reverse stages) ≡ nest stages destination
unfolding carry
fold-reverse [] destination = refl
fold-reverse (s ∷ ss) destination =
    ap (foldl carry destination) (reverse-cons s ss)
    ∙ foldl-snoc carry destination (reverse ss) s
    ∙ ap (λ f v. s v f) (fold-reverse ss destination)

reduce_nonempty :
    {X Y : Type 0} (xs : List X) (callable : Y → X → Y) (initial : Y)
    → 0 < length xs
    → array_reduce xs callable initial ≡ some (foldl callable initial xs)
reduce_nonempty [] callable initial h = absurd (omega arith)
reduce_nonempty (x ∷ xs) callable initial h = array_reduce-foldl x xs callable initial

nonempty_reduce :
    {A R : Type 0} (stages : List (Stage A R)) (destination : NextFunc A R)
    → 0 < length (reverse stages)
    → array_reduce (reverse stages) carry destination ≡ some (nest stages destination)
nonempty_reduce stages destination h =
    reduce_nonempty (reverse stages) carry destination h ∙ ap some (fold-reverse stages destination)

-- Then, on a pipeline to which stages were added by Through, runs the first stage around the second
-- and so on, the destination innermost, on the value that was sent; it does not panic.
pub then-through :
    {A R : Type 0} (nil value : A) (stages : List (Stage A R)) (destination : NextFunc A R)
    → then_ (through (send (new_pipeline nil) value) stages) destination
      ≡ some (nest stages destination value)
unfolding then_ through send new_pipeline
then-through nil value [] destination = refl
then-through nil value (s ∷ ss) destination =
    if_else (leb (length (s ∷ ss)) 0) _ _ (ground arith)
    ∙ ap (Option.map (λ f. f value)) (
        nonempty_reduce (s ∷ ss) destination
          (omega (arith, ap length (reverse-cons s ss), length-append (reverse ss) (s ∷ []))))
