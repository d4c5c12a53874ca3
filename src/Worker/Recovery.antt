-- ===== src/Worker/Recovery.antt =====
-- A call of the worker of launcher/xlpod-server/src/python_worker.rs after one that failed.
use Prim.Native.String
use xlpod.Common.{ℕ, suc, ◌≡◌, true, String, ◌∷◌, some}
use xlpod.Json.{Value}
use xlpod.System.{Env, World, sent, spawned, line, done}
use xlpod.Worker.{client_path, request_value, call}

-- At the external call `n` an interpreter can be started, and the process that is started there takes
-- its first request and answers with a line of JSON; the request can be encoded.
pub record Starts (env : Env) (n : ℕ) : Type 0 where
  pub starts : (python : String) → env.spawn n python (client_path env) ≡ true
  pub writes : (text : String) → env.write_all (suc n) text ≡ true
  pub flushes : env.flush (suc (suc n)) ≡ true
  pub answer : String
  pub value : Value
  pub reads : env.read_line (suc (suc (suc n))) ≡ line answer
  pub parses : env.json.parse (env.trim answer) ≡ some value
  pub renders : (v : Value) → (text : String) × (env.render v ≡ some text)

module _ (env : Env) (method : String) (params : Value) where
  -- A call that was served by a process of its own: it was started, and then sent this request as
  -- its first.
  pub record ServedAfresh (w : World) : Type 0 where
    pub python : String
    pub text : String
    pub value : Value
    pub last : World
    pub answered : call env method params w ≡ done value last
    pub request : env.render (request_value env 1 method params) ≡ some text
    pub trace : last.trace ≡ sent text ∷ spawned python (client_path env) ∷ w.trace
    pub slot : last.worker ≡ some 2

  -- The world after such a call.
  abbrev served : World → (python text : String) → World
  served w python text = record w {
    worker = some 2;
    ticks = suc (suc (suc (suc w.ticks)));
    trace = sent text ∷ spawned python (client_path env) ∷ w.trace;
  }
