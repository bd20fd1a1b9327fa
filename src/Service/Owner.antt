-- ===== src/Service/Owner.antt =====
-- `WorkerOwner` of src/service.rs: the slot that holds the handle of a worker thread.
--
-- A handle is the number of its thread; a `WorkerSlot` is the content of the shared mutex, which
-- never fails (`lock_worker_slot` takes a poisoned one over).
use bare_arti.Base.{ℕ, Bool, true, false, Option, none, some}
use bare_arti.Service.Types.{ServiceError, shutdown_error}

abbrev pub WorkerHandle : Type 0
WorkerHandle = ℕ

abbrev pub WorkerSlot : Type 0
WorkerSlot = Option WorkerHandle

unfoldable pub new : WorkerSlot
new = none

-- The slot afterwards, and the error with the worker that it hands back.
unfoldable pub store : WorkerHandle → WorkerSlot → WorkerSlot × Option (ServiceError × WorkerHandle)
store worker none = (some worker, none)
store worker (some held) =
    (some held, some (shutdown_error "worker owner already contains a worker", worker))

unfoldable pub take : WorkerSlot → WorkerSlot × Option WorkerHandle
take slot = (none, slot)

unfoldable pub has_worker : WorkerSlot → Bool
has_worker none = false
has_worker (some worker) = true
