-- ===== src/Util/Context.antt =====
-- util/context.go and util/request.go: what a handler is given. `K` is the type of the keys under which
-- handlers keep values, and `same` Go's equality on them.
pub mod Storage
use netman.Common.{ℕ, Bool, Option, none, some, List, [], ◌∷◌, if◌then◌else◌}
use netman.Util.Message.{Message}

-- The manager of a request is threaded through the model.
pub record Request (C : Type 0) : Type 0 where
  pub message : Message
  pub connect : C

pub record Context (C K V : Type 0) : Type 0 where
  pub storage : List (K × V)
  pub request : Request C

-- NewRequest; `stamp` is the connection's SetLastMessageTime at the current time.
unfoldable pub new_request : {C : Type 0} → (C → C) → C → Message → Request C
new_request stamp c message = record { message = message; connect = stamp c }

module _ {C K V : Type 0} where
  unfoldable pub new_context : Request C → Context C K V
  new_context request = record { storage = []; request = request }

  unfoldable pub get_request : Context C K V → Request C
  get_request c = c.request

  unfoldable pub get_connect : Context C K V → C
  get_connect c = c.request.connect

  unfoldable pub get_message : Context C K V → Message
  get_message c = c.request.message

module _ {K V : Type 0} (same : K → K → Bool) where
  -- sync.Map, as the list of its entries.
  abbrev pub load : K → List (K × V) → Option V
  load k [] = none
  load k ((j, v) ∷ es) = if same j k then some v else load k es

  abbrev pub save : K → V → List (K × V) → List (K × V)
  save k v [] = (k, v) ∷ []
  save k v ((j, u) ∷ es) = if same j k then (j, v) ∷ es else (j, u) ∷ save k v es

module _ {C K V : Type 0} (same : K → K → Bool) where
  unfoldable pub set : Context C K V → K → V → Context C K V
  set c k v = record c { storage = save same k v c.storage }

  -- Get; a key without a value gives nil.
  unfoldable pub get : Context C K V → K → Option V
  get c k = load same k c.storage
