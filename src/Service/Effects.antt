-- ===== src/Service/Effects.antt =====
-- What the functions of src/service.rs do after they have released the mutex of `Shared.inner`: a
-- list of effects in the order of the source, each one atomic, so that other threads may run between
-- two of them.
use bare_arti.Base.{List, [], ◌∷◌}
use bare_arti.Service.Types.{ServiceEvent, ServiceError, err}
use bare_arti.Service.Dispatch.{Completion}
use bare_arti.Service.World
use bare_arti.Service.World.{World, Handle}

pub data Effect : Type 0 where
  cancel_once : Handle → Effect
  request_stop : Handle → Effect
  -- `startup_waker.try_send(Err(error))`
  wake : Handle → ServiceError → Effect
  queue_completion : Completion → ServiceEvent → Effect

-- `let _ = queue_completion(…)`: the result is not read where a list of effects is performed.
unfoldable pub perform : Effect → World → World
unfolding World.cancel_once World.request_stop World.try_send World.queue_completion
perform (cancel_once h) w = World.cancel_once h w
perform (request_stop h) w = World.request_stop h w
perform (wake h error) w = World.try_send h (err error) w
perform (queue_completion c event) w = (World.queue_completion c event w).0

unfoldable pub perform_all : List Effect → World → World
perform_all [] w = w
perform_all (e ∷ es) w = perform_all es (perform e w)

-- `for completion in completions { let _ = queue_completion(shared, completion, event.clone()); }`
unfoldable pub queue_all : List Completion → ServiceEvent → List Effect
queue_all [] event = []
queue_all (c ∷ cs) event = queue_completion c event ∷ queue_all cs event

-- A section's outcome, its effects performed with no other thread in between.
unfoldable pub settle : World × List Effect → World
unfolding perform_all
settle (w, es) = perform_all es w
