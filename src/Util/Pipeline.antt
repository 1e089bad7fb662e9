-- ===== src/Util/Pipeline.antt =====
-- util/pipeline.go, and ArrayReduce of util/helpers.go. `A` is the type of what is passed on and `R`
-- that of what a stage returns, its effects included.
pub mod Order
use netman.Common.{
  ℕ, suc, ◌+◌, Option, none, some, List, [], ◌∷◌, ◌++◌, length, leb, ◌==◌, if◌then◌else◌,
}
use mathlib.Core.List.{reverse}
use mathlib.Core.Option

-- iface.NextFunc, and iface.IStage with its one method, Process.
abbrev pub NextFunc : Type 0 → Type 0 → Type 0
NextFunc A R = A → R

abbrev pub Stage : Type 0 → Type 0 → Type 0
Stage A R = A → NextFunc A R → R

-- The loop of ArrayReduce: `i` counts the items, and `payload` is nil before the first.
unfoldable pub reduce_from : {X Y : Type 0} → ℕ → Option Y → (Y → X → Y) → Y → List X → Option Y
reduce_from i payload callable initial [] = payload
reduce_from i payload callable initial (item ∷ rest) =
    let stack = if i == 0 then some initial else payload in
    reduce_from (suc i) (Option.map (λ s. callable s item) stack) callable initial rest

-- ArrayReduce on a slice.
unfoldable pub array_reduce : {X Y : Type 0} → List X → (Y → X → Y) → Y → Option Y
unfolding reduce_from
array_reduce xs callable initial = reduce_from 0 none callable initial xs

pub record Pipeline (A R : Type 0) : Type 0 where
  pub passable : A
  pub pipes : List (Stage A R)

module _ {A R : Type 0} where
  -- `nil` is Go's nil, which is passed on if Send is not called.
  unfoldable pub new_pipeline : A → Pipeline A R
  new_pipeline nil = record { passable = nil; pipes = [] }

  unfoldable pub send : Pipeline A R → A → Pipeline A R
  send p passable = record p { passable = passable }

  unfoldable pub pipe : Pipeline A R → Stage A R → Pipeline A R
  pipe p stage = record p { pipes = p.pipes ++ stage ∷ [] }

  unfoldable pub through : Pipeline A R → List (Stage A R) → Pipeline A R
  through p stages = record p { pipes = p.pipes ++ stages }

  unfoldable pub carry : NextFunc A R → Stage A R → NextFunc A R
  carry stack stage passable = stage passable stack

  -- Then. `none` is a panic, on a call of nil.
  unfoldable pub then_ : Pipeline A R → NextFunc A R → Option R
  unfolding array_reduce
  then_ p destination =
      if leb (length p.pipes) 0
      then some (destination p.passable)
      else Option.map (λ f. f p.passable) (array_reduce (reverse p.pipes) carry destination)
