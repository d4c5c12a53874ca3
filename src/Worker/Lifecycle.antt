-- ===== src/Worker/Lifecycle.antt =====
-- The lifecycle of the worker process in launcher/xlpod-server/src/python_worker.rs.
use xlpod.Common.{
  inl, inr, In, true, false, ℕ, suc, ◌+◌, ◌%◌, ◌^◌, ◌≡◌, refl, ◌⊎◌, Bool, String, Option, none,
  some, List, [], ◌∷◌, arith,
}
use xlpod.Error.{worker_spawn_failed, worker_timeout, worker_crashed, internal}
use xlpod.Json.{Value}
use xlpod.System.{
  Env, World, Event, spawned, sent, killed, LineRead, line, end_of_file, read_failed, timed_out,
  Outcome, done, failed,
}
use xlpod.System.Logic.{
  Stays-known, Stays-draw, Stays-emit, Stays, Stays-same, Stays-bind, Stays-then, Stays-if,
  Stays-reads, Stays-pure, Stays-throw, stays,
}
use xlpod.Worker.{
  client_path, request_value, try_spawn, spawn_first, spawn_worker, set_slot, ready, ensure_worker,
  or_crash, receive, exchange, call, find_python,
}

-- What a call of the worker does outside: it starts or kills the process, or sends it the line of
-- this request, under some id.
abbrev pub IsCall : Env → String → Value → Event → Type 0
IsCall env method params (spawned p c) = In p (find_python env) × (c ≡ client_path env)
IsCall env method params (sent s) =
    (id : ℕ) × (env.render (request_value env id method params) ≡ some s)
IsCall env method params killed = Unit
IsCall env method params _ = ⊥

module _ (env : Env) (method : String) (params : Value) where
  abbrev Use : Event → Type 0
  Use = IsCall env method params

  Stays-set_slot : (s : Option ℕ) → Stays Use (set_slot s)
  Stays-set_slot s = Stays-same _ (λ w. (refl, refl, refl, refl, refl, refl, refl))

  Stays-try_spawn :
      (python : String) → In python (find_python env) → Stays Use (try_spawn env python)
  unfolding try_spawn
  Stays-try_spawn python m = Stays-bind (Stays-draw _) λ started.
      Stays-if started
        (Stays-then (Stays-emit (spawned python (client_path env)) (m, refl)) (Stays-pure true))
        (Stays-pure false)

  Stays-spawn_first :
      (names : List String)
      → ((p : String) → In p names → In p (find_python env))
      → Stays Use (spawn_first env names)
  unfolding spawn_first
  Stays-spawn_first [] h = Stays-throw worker_spawn_failed
  Stays-spawn_first (python ∷ more) h =
      Stays-bind (Stays-try_spawn python (h python (inl refl)))
        λ started. Stays-if started (Stays-pure 1) (Stays-spawn_first more λ p m. h p (inr m))

  Stays-receive : (r : LineRead) → Stays Use (receive env r)
  unfolding receive
  Stays-receive end_of_file = search (stays, Stays-set_slot)
  Stays-receive (line s) = search stays
  Stays-receive read_failed = search (stays, Stays-set_slot)
  Stays-receive timed_out = search (stays, Stays-set_slot)

  Stays-or_crash : (ok : Bool) → Stays Use (or_crash ok)
  unfolding or_crash
  Stays-or_crash ok = search (stays, Stays-set_slot)

  Stays-exchange : (id : ℕ) → Stays Use (exchange env id method params)
  unfolding exchange
  Stays-exchange id =
      search (stays, Stays-known, Stays-set_slot, sending, Stays-or_crash, Stays-receive) depth 16
    where
      sending :
          (text : String)
          → env.render (request_value env id method params) ≡ some text
          → Use (sent text)
      sending text e = (id, e)

  Stays-ready : (slot : Option ℕ) → Stays Use (ready env slot)
  unfolding ready spawn_worker
  Stays-ready (some id) = Stays-pure id
  Stays-ready none =
      Stays-bind (Stays-spawn_first (find_python env) λ p m. m)
        λ id. Stays-then (Stays-set_slot (some id)) (Stays-pure id)

  Stays-ensure_worker : Stays Use (ensure_worker env)
  unfolding ensure_worker
  Stays-ensure_worker = Stays-bind (Stays-reads _) Stays-ready

  -- Whatever a call of the worker meets, it does nothing outside but to start or kill the worker and
  -- to send it the line of this request, and it changes no store of the launcher.
  pub Stays-call : Stays Use (call env method params)
  unfolding call
  Stays-call = Stays-bind Stays-ensure_worker Stays-exchange

-- The state of the slot after a call of the live worker `id`.
abbrev pub SlotAfter : {A : Type 0} → ℕ → Outcome A → Type 0
SlotAfter id (done v w) = w.worker ≡ some ((id + 1) % 2 ^ 64)
SlotAfter id (failed e w) =
    ((e ≡ internal) × (w.worker ≡ some ((id + 1) % 2 ^ 64)))
    ⊎ (((e ≡ worker_crashed) ⊎ (e ≡ worker_timeout)) × (w.worker ≡ none))

exchange-SlotAfter :
    (env : Env) (id : ℕ) (method : String) (params : Value) (w : World)
    → SlotAfter id (exchange env id method params w)
unfolding exchange receive or_crash
exchange-SlotAfter env id method params w = ground arith

-- A call on a live worker keeps that worker with the next request id when it answers or when a line
-- cannot be encoded or decoded; after a crash or a timeout the slot is empty, so that no later
-- caller is served by the worker that failed.
pub call-SlotAfter :
    (env : Env) (id : ℕ) (method : String) (params : Value) (w : World)
    → w.worker ≡ some id
    → SlotAfter id (call env method params w)
unfolding call ensure_worker
call-SlotAfter env id method params w live =
    simp (live, ready) (exchange-SlotAfter env id method params w)

spawn_first-id :
    (env : Env) (names : List String) (w w' : World) (id : ℕ)
    → spawn_first env names w ≡ done id w'
    → id ≡ 1
unfolding spawn_first try_spawn
spawn_first-id env [] w w' id h = cc
spawn_first-id env (python ∷ more) w w' id h =
    ground (arith, spawn_first-id env more (record w { ticks = suc w.ticks }) w' id)

-- A first call, on an empty slot, that answers has started a fresh worker, whose requests count
-- from 1: the next one is request 2.
pub call_fresh :
    (env : Env) (method : String) (params v : Value) (w w' : World)
    → w.worker ≡ none
    → call env method params w ≡ done v w'
    → w'.worker ≡ some 2
unfolding call ensure_worker ready spawn_worker
call_fresh env method params v w w' empty h = go (spawn_first env (find_python env) w) refl
  where
    go : (o : Outcome ℕ) → spawn_first env (find_python env) w ≡ o → w'.worker ≡ some 2
    go (done id u) e =
        let one = spawn_first-id env (find_python env) w u id e in
        ground (arith, exchange-SlotAfter env id method params (record u { worker = some id }))
    go (failed x u) e = ground arith
