-- ===== src/Dispatch.antt =====
-- server/routermgr.go and server/middleware.go: routes, middlewares and groups, and the dispatch of a
-- message through them. `Ctx` is a message's context, `W` the world that handlers act on, and `V`
-- what a middleware returns.
pub mod Onion
use netman.Common.{
  ℕ, suc, zero, Bool, true, false, Option, none, some, List, [], ◌∷◌, ◌++◌, map, ◌==◌,
  if◌then◌else◌,
}
use netman.Errors.{Error, Result, ok, err, router_not_found}
use netman.Manager.{lookup, store}
use netman.Util.Pipeline
use netman.Util.Pipeline.{Stage, NextFunc}

-- An effect on the world, with a result.
abbrev pub Action : Type 0 → Type 0 → Type 0
Action W V = W → V × W

-- iface.IRouter, and iface.MiddlewareFunc.
abbrev pub Route : Type 0 → Type 0 → Type 0
Route Ctx W = Ctx → W → W

abbrev pub Middleware : Type 0 → Type 0 → Type 0 → Type 0
Middleware Ctx W V = Ctx → (Ctx → Action W V) → Action W V

pub data Application : Type 0 where
  router_mode websocket_mode : Application

pub record MiddlewareGroup (Ctx W V : Type 0) : Type 0 where
  pub middlewares : List (Middleware Ctx W V)
  pub routers : List (ℕ × Route Ctx W)

pub record RouterMgr (Ctx W V : Type 0) : Type 0 where
  pub inner : List (ℕ × Route Ctx W)
  pub route_middleware : List (ℕ × List (Middleware Ctx W V))
  pub global_middlewares : List (Middleware Ctx W V)
  pub middleware_group : List (MiddlewareGroup Ctx W V)

module _ {Ctx W : Type 0} where
  abbrev pub found : Option (Route Ctx W) → Result (Route Ctx W)
  found none = err router_not_found
  found (some router) = ok router

  abbrev pub run_found : Result (Route Ctx W) → Ctx → W → Option Error × W
  run_found (err e) ctx w = (some e, w)
  run_found (ok router) ctx w = (none, router ctx w)

module _ {Ctx W V : Type 0} where
  unfoldable pub new_middleware_group : List (Middleware Ctx W V) → MiddlewareGroup Ctx W V
  new_middleware_group callables = record { middlewares = callables; routers = [] }

  -- AddRouter of a group.
  unfoldable pub group_add_router :
      MiddlewareGroup Ctx W V → ℕ → Route Ctx W → MiddlewareGroup Ctx W V
  group_add_router g msg_id router = record g { routers = store msg_id router g.routers }

  unfoldable pub new_router_mgr : RouterMgr Ctx W V
  new_router_mgr = record {
    inner = [];
    route_middleware = [];
    global_middlewares = [];
    middleware_group = [];
  }

  unfoldable pub add : RouterMgr Ctx W V → ℕ → Route Ctx W → RouterMgr Ctx W V
  add r msg_id router = record r { inner = store msg_id router r.inner }

  -- Server.Use.
  unfoldable pub use_ : RouterMgr Ctx W V → Middleware Ctx W V → RouterMgr Ctx W V
  use_ r callable = record r { global_middlewares = r.global_middlewares ++ callable ∷ [] }

  -- NewGroup; the group is the last of the manager's, where its AddRouter finds it.
  unfoldable pub new_group :
      RouterMgr Ctx W V → Middleware Ctx W V → List (Middleware Ctx W V) → RouterMgr Ctx W V
  unfolding new_middleware_group
  new_group r callable more = record r {
    middleware_group = r.middleware_group ++ new_middleware_group (callable ∷ more) ∷ [];
  }

  -- ResolveGroup, the inner loop, over the group's map in one of its orders.
  unfoldable pub resolve_routers :
      List (Middleware Ctx W V) → List (ℕ × Route Ctx W) → RouterMgr Ctx W V → RouterMgr Ctx W V
  unfolding add
  resolve_routers ms [] r = r
  resolve_routers ms ((router_id, router) ∷ rest) r =
      resolve_routers ms rest (
        add (record r { route_middleware = store router_id ms r.route_middleware }) router_id
          router)

  unfoldable pub resolve_groups :
      List (MiddlewareGroup Ctx W V) → RouterMgr Ctx W V → RouterMgr Ctx W V
  unfolding resolve_routers
  resolve_groups [] r = r
  resolve_groups (g ∷ gs) r = resolve_groups gs (resolve_routers g.middlewares g.routers r)

  -- ResolveGroup; its error is always nil.
  unfoldable pub resolve_group : RouterMgr Ctx W V → RouterMgr Ctx W V
  unfolding resolve_groups
  resolve_group r = resolve_groups r.middleware_group r

  unfoldable pub get : RouterMgr Ctx W V → ℕ → Result (Route Ctx W)
  get r msg_id = found (lookup msg_id r.inner)

  -- Do, with the context's message number.
  unfoldable pub do_ : RouterMgr Ctx W V → ℕ → Ctx → W → Option Error × W
  unfolding get
  do_ r msg_id ctx w = run_found (get r msg_id) ctx w

  abbrev pub or_none : Option (List (Middleware Ctx W V)) → List (Middleware Ctx W V)
  or_none none = []
  or_none (some ms) = ms

  -- Process of the stage that Conversion makes of a middleware: `next` is called as it is.
  unfoldable pub conversion : List (Middleware Ctx W V) → List (Stage Ctx (Action W V))
  conversion [] = []
  conversion (m ∷ ms) = (λ value next. m value (λ ctx. next ctx)) ∷ conversion ms

-- `message_handler` is the websocket handler's Message, `msg_id` the number of a context's message,
-- and `result` the value that the innermost function returns for an error, or for nil.
module _ {Ctx W V : Type 0} (msg_id : Ctx → ℕ) (message_handler : Route Ctx W)
    (result : Option Error → V) where
  -- What Dispatch passes to Then; the error is also logged.
  unfoldable pub destination : RouterMgr Ctx W V → Application → Ctx → NextFunc Ctx (Action W V)
  unfolding do_
  destination r websocket_mode ctx value w = (result none, message_handler ctx w)
  destination r router_mode ctx value w = let (e, w') = do_ r (msg_id ctx) ctx w in (result e, w')

  -- Dispatch, with Go's nil: the global middlewares, then the route's, then the handler.
  unfoldable pub dispatch : Ctx → RouterMgr Ctx W V → Application → Ctx → Option (Action W V)
  unfolding conversion destination
  dispatch nil r app ctx =
      let middlewares = r.global_middlewares ++ or_none (lookup (msg_id ctx) r.route_middleware) in
      Pipeline.then_
        (Pipeline.through (Pipeline.send (Pipeline.new_pipeline nil) ctx) (conversion middlewares))
        (destination r app ctx)
