-- ===== src/Dispatch/Onion.antt =====
-- server/routermgr.go: the order in which a message meets the middlewares and the route.
use netman.Common.{
  ℕ, ◌≡◌, refl, ap, subst, ◌∙◌, Option, none, some, List, [], ◌∷◌, ◌++◌, arith, ◌==◌, if◌then◌else◌,
}
use netman.Errors.{Error, router_not_found}
use netman.Manager.{lookup, store}
use netman.Manager.Map.{IsMap, IsFresh, lookup-store, lookup_fresh}
use netman.Util.Pipeline.Order.{nest, then-through}
use netman.Dispatch.{
  Action, Route, Middleware, Application, router_mode, websocket_mode, MiddlewareGroup, RouterMgr,
  add, resolve_routers, resolve_groups, resolve_group, found, run_found, get, do_, or_none,
  conversion, destination, dispatch,
}

module _ {Ctx W V : Type 0} where
  -- The middlewares around a handler, the first outermost; each gets the rest as its `next`.
  abbrev pub around : List (Middleware Ctx W V) → (Ctx → Action W V) → Ctx → Action W V
  around [] handler ctx = handler ctx
  around (m ∷ ms) handler ctx = m ctx (around ms handler)

  nest-conversion :
      (ms : List (Middleware Ctx W V)) (handler : Ctx → Action W V) (ctx : Ctx)
      → nest (conversion ms) handler ctx ≡ around ms handler ctx
  unfolding conversion
  nest-conversion [] handler ctx = refl
  nest-conversion (m ∷ ms) handler ctx = ap (m ctx) (λ i ctx'. nest-conversion ms handler ctx' i)

  around-append :
      (ms ns : List (Middleware Ctx W V)) (handler : Ctx → Action W V) (ctx : Ctx)
      → around (ms ++ ns) handler ctx ≡ around ms (around ns handler) ctx
  around-append [] ns handler ctx = refl
  around-append (m ∷ ms) ns handler ctx = ap (m ctx) (λ i ctx'. around-append ms ns handler ctx' i)

  -- What the router mode runs for a message with the number `id`: the route, if there is one.
  abbrev pub run_route : (Option Error → V) → Option (Route Ctx W) → Ctx → Action W V
  run_route result none ctx w = (result (some router_not_found), w)
  run_route result (some router) ctx w = (result none, router ctx w)

module _ {Ctx W V : Type 0} (msg_id : Ctx → ℕ) (message_handler : Route Ctx W)
    (result : Option Error → V) where
  -- What the innermost function does, on the message that Dispatch was called with.
  abbrev pub handler_of : RouterMgr Ctx W V → Application → Ctx → Action W V
  handler_of r websocket_mode ctx w = (result none, message_handler ctx w)
  handler_of r router_mode ctx w = run_route result (lookup (msg_id ctx) r.inner) ctx w

  do_route :
      (ctx : Ctx) (w : W) (route : Option (Route Ctx W))
      → (result (run_found (found route) ctx w).0, (run_found (found route) ctx w).1)
        ≡ run_route result route ctx w
  do_route ctx w none = refl
  do_route ctx w (some router) = refl

  destination-handler_of :
      (r : RouterMgr Ctx W V) (app : Application) (ctx value : Ctx) (w : W)
      → destination msg_id message_handler result r app ctx value w ≡ handler_of r app ctx w
  unfolding destination do_ get
  destination-handler_of r websocket_mode ctx value w = refl
  destination-handler_of r router_mode ctx value w = do_route ctx w (lookup (msg_id ctx) r.inner)

module _ {Ctx W V : Type 0} (nil : Ctx) (msg_id : Ctx → ℕ) (message_handler : Route Ctx W)
    (result : Option Error → V) where
  -- Dispatch runs the global middlewares in the order of their registration, inside them those of the
  -- message's group, and innermost, on the context it was called with, the websocket handler or the
  -- route of the message's number; without such a route the innermost step gives the error that there
  -- is none and does nothing. It does not panic.
  pub dispatch-around :
      (r : RouterMgr Ctx W V) (app : Application) (ctx : Ctx)
      → dispatch msg_id message_handler result nil r app ctx
        ≡ some (
            around r.global_middlewares
              (around
                (or_none (lookup (msg_id ctx) r.route_middleware))
                (λ value. handler_of msg_id message_handler result r app ctx))
              ctx)
  unfolding dispatch
  dispatch-around r app ctx =
      let own = or_none (lookup (msg_id ctx) r.route_middleware) in
      let innermost = destination msg_id message_handler result r app ctx in
      then-through nil ctx (conversion (r.global_middlewares ++ own)) innermost
      ∙ ap some (
          nest-conversion (r.global_middlewares ++ own) innermost ctx
          ∙ around-append r.global_middlewares own innermost ctx
          ∙ (λ i.
              around r.global_middlewares
                (around own (λ value w.
                  destination-handler_of msg_id message_handler result r app ctx value w i))
                ctx))

-- The first value, or else the second.
abbrev pub first_of : {X : Type 0} → Option X → Option X → Option X
first_of none y = y
first_of (some x) y = some x

module _ {Ctx W V : Type 0} where
  -- What the last group with a route of this number gives it: the group's middlewares and the route.
  abbrev pub with_group :
      List (Middleware Ctx W V)
      → Option (Route Ctx W)
      → Option (List (Middleware Ctx W V) × Route Ctx W)
  with_group ms none = none
  with_group ms (some router) = some (ms, router)

  abbrev pub grouped :
      ℕ → List (MiddlewareGroup Ctx W V) → Option (List (Middleware Ctx W V) × Route Ctx W)
  grouped id [] = none
  grouped id (g ∷ gs) = first_of (grouped id gs) (with_group g.middlewares (lookup id g.routers))

  -- A route with its middlewares, as the manager holds it after the start.
  abbrev pub registered :
      ℕ → RouterMgr Ctx W V → Option (List (Middleware Ctx W V)) × Option (Route Ctx W)
  registered id r = (lookup id r.route_middleware, lookup id r.inner)

  abbrev pub instead :
      Option (List (Middleware Ctx W V) × Route Ctx W)
      → Option (List (Middleware Ctx W V)) × Option (Route Ctx W)
      → Option (List (Middleware Ctx W V)) × Option (Route Ctx W)
  instead none old = old
  instead (some (ms, router)) old = (some ms, some router)

  instead-first_of :
      (x y : Option (List (Middleware Ctx W V) × Route Ctx W))
      (old : Option (List (Middleware Ctx W V)) × Option (Route Ctx W))
      → instead x (instead y old) ≡ instead (first_of x y) old
  instead-first_of none y old = refl
  instead-first_of (some x) none old = refl
  instead-first_of (some x) (some y) old = refl

  -- One entry of a group's map, before the others.
  one_step :
      (id k : ℕ) (ms : List (Middleware Ctx W V)) (x : Route Ctx W) (r : RouterMgr Ctx W V)
      (later : Option (Route Ctx W))
      → (k ≡ id → later ≡ none)
      → instead
          (with_group ms later)
          (lookup id (store k ms r.route_middleware), lookup id (store k x r.inner))
        ≡ instead (with_group ms (if k == id then some x else later)) (registered id r)
  one_step id k ms x r none v =
      ground (arith, lookup-store k id ms r.route_middleware, lookup-store k id x r.inner)
  one_step id k ms x r (some y) v = ground (arith, v)

  pub resolve_routers-registered :
      (id : ℕ) (ms : List (Middleware Ctx W V)) (es : List (ℕ × Route Ctx W))
      (r : RouterMgr Ctx W V)
      → IsMap es
      → registered id (resolve_routers ms es r)
        ≡ instead (with_group ms (lookup id es)) (registered id r)
  unfolding resolve_routers add
  resolve_routers-registered id ms [] r v = refl
  resolve_routers-registered id ms ((k, x) ∷ es) r v =
      resolve_routers-registered id ms es
        (add (record r { route_middleware = store k ms r.route_middleware }) k x) v.1
      ∙ one_step id k ms x r (lookup id es)
          (λ same. lookup_fresh id es (subst (λ j. IsFresh j es) same v.0))

  abbrev pub AreMaps : List (MiddlewareGroup Ctx W V) → Type 0
  AreMaps [] = Unit {0}
  AreMaps (g ∷ gs) = IsMap g.routers × AreMaps gs

  resolve_groups-registered :
      (id : ℕ) (gs : List (MiddlewareGroup Ctx W V)) (r : RouterMgr Ctx W V)
      → AreMaps gs
      → registered id (resolve_groups gs r) ≡ instead (grouped id gs) (registered id r)
  unfolding resolve_groups
  resolve_groups-registered id [] r v = refl
  resolve_groups-registered id (g ∷ gs) r v =
      resolve_groups-registered id gs (resolve_routers g.middlewares g.routers r) v.1
      ∙ ap (instead (grouped id gs)) (resolve_routers-registered id g.middlewares g.routers r v.0)
      ∙ instead-first_of (grouped id gs) (with_group g.middlewares (lookup id g.routers))
          (registered id r)

  -- Resolving the groups gives each number the route and the middlewares of the last group that has a
  -- route of that number, in place of what was registered for it, and leaves the other numbers alone.
  pub resolve_group-registered :
      (id : ℕ) (r : RouterMgr Ctx W V)
      → AreMaps r.middleware_group
      → registered id (resolve_group r) ≡ instead (grouped id r.middleware_group) (registered id r)
  unfolding resolve_group
  resolve_group-registered id r v = resolve_groups-registered id r.middleware_group r v
