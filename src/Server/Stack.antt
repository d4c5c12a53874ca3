-- ===== src/Server/Stack.antt =====
-- The layers of launcher/xlpod-server/src/middleware.rs around a handler: a relation between the
-- states of the launcher that holds for the handler holds for the whole stack.
use xlpod.Common.{refl, ℕ, String, List, [], ◌∷◌}
use xlpod.RateLimit.{check}
use xlpod.System.{Env, World, Outcome, done, failed, after, M}
use xlpod.System.Order.{Order, Follows, follows}
use xlpod.Http.{Request, Response, Next, run_next, into_response}
use xlpod.Middleware.{host_guard, origin_guard, bearer_guard, require_scope, check_limit}
use xlpod.Routes.Table.{Layer, host, origin, bearer, scope, run_layer, run_layers}
use xlpod.Server.Steps.{Advances, quiet, Advances-Order, Follows-lift_at}

-- The relation holds for what is behind a layer.
abbrev pub Serves : (World → World → Type 0) → Next → Type 0
Serves R next = (req : Request) (w : World) → R w (next req w).1

module _ (R : World → World → Type 0) where
  of_outcome : (o : Outcome Response) (w : World) → R w (after o) → R w (into_response o).1
  of_outcome (done r v) w h = h
  of_outcome (failed e v) w h = h

  pub answered : (m : M Response) → Follows R m → (w : World) → R w (into_response (m w)).1
  answered m f w = of_outcome (m w) w (f.run w)

module _ {R : World → World → Type 0} ⦃o : Order R⦄ (env : Env)
    (limited : (key : String) (now : ℕ) → Follows R (check_limit key now)) where
  Follows-run_next : (next : Next) (req : Request) → Serves R next → Follows R (run_next next req)
  Follows-run_next next req h = record { run = λ w. h req w }

  Serves-run_layer : (l : Layer) (next : Next) → Serves R next → Serves R (run_layer env l next)
  unfolding run_layer host_guard origin_guard bearer_guard require_scope
  Serves-run_layer host next h req w =
      answered R (host_guard env req next) (search (follows, Follows-run_next) depth 9) w
  Serves-run_layer origin next h req w =
      answered R (origin_guard req next) (search (follows, Follows-run_next) depth 9) w
  Serves-run_layer bearer next h req w =
      answered R (bearer_guard env req next) (search (follows, Follows-run_next, limited) depth 14)
        w
  Serves-run_layer (scope need) next h req w =
      answered R (require_scope need req next) (search (follows, Follows-run_next) depth 9) w

  pub Serves-run_layers :
      (ls : List Layer) (next : Next) → Serves R next → Serves R (run_layers env ls next)
  unfolding run_layers
  Serves-run_layers [] next h = h
  Serves-run_layers (l ∷ ls) next h =
      Serves-run_layer l (run_layers env ls next) (Serves-run_layers ls next h)

pub Follows-check_limit : (key : String) (now : ℕ) → Follows Advances (check_limit key now)
unfolding check_limit
Follows-check_limit key now =
    Follows-lift_at (λ w. (check key now w.limiter).0)
      (λ w. record w { limiter = (check key now w.limiter).1 }) (λ w. quiet refl refl refl refl)
