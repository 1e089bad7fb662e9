-- ===== src/Util/Queue.antt =====
-- util/queue.go: the queue of packets that wait for a writable socket. Each operation holds the
-- mutex from start to end, so an operation is one step.
use netman.Common.{ℕ, Option, none, some, List, [], ◌∷◌, ◌++◌, length}

pub record Queue {ℓ} (A : Type ℓ) : Type ℓ where
  pub inner : List A

module _ {ℓ} {A : Type ℓ} where
  unfoldable pub new_queue : Queue A
  new_queue = record { inner = [] }

  unfoldable pub push : Queue A → A → Queue A × ℕ
  push q item = let inner' = q.inner ++ item ∷ [] in (record { inner = inner' }, length inner')

  pop_inner : List A → Option A × Queue A
  pop_inner [] = (none, record { inner = [] })
  pop_inner (item ∷ rest) = (some item, record { inner = rest })

  -- `none` is the source's nil.
  unfoldable pub pop : Queue A → Option A × Queue A
  unfolding pop_inner
  pop q = pop_inner q.inner

  unfoldable pub len : Queue A → ℕ
  len q = length q.inner
