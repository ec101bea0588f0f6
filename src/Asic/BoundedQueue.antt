-- ===== src/Asic/BoundedQueue.antt =====
-- asic/bounded_queue.hpp: a queue of bounded size that threads share. Each method holds the mutex from
-- its beginning to its end, so a run of the queue is a sequence of whole method calls.
pub mod Fifo
use hzl_silicon_switch_lab.Base.{
  ℕ, Bool, true, false, ◌&&◌, not, List, [], ◌∷◌, ◌++◌, Option, none, some, leb, ◌==◌,
  if◌then◌else◌, length,
}

pub data QueueEnqueueResult : Type 0 where
  enqueued full_queue closed_queue : QueueEnqueueResult

pub record BoundedQueue {ℓ} (A : Type ℓ) : Type ℓ where
  pub capacity : ℕ
  pub values : List A
  pub closed : Bool

-- The constructor; `none` is the exception of a zero capacity.
unfoldable pub create_queue {ℓ} : {A : Type ℓ} → ℕ → Option (BoundedQueue A)
create_queue capacity =
    if capacity == 0
    then none
    else some (record { capacity = capacity; values = []; closed = false })

-- `full`
unfoldable pub is_full {ℓ} : {A : Type ℓ} → BoundedQueue A → Bool
is_full q = leb q.capacity (length q.values)

-- `try_enqueue`
unfoldable pub try_enqueue {ℓ} :
    {A : Type ℓ} → BoundedQueue A → A → BoundedQueue A × QueueEnqueueResult
unfolding is_full
try_enqueue q value =
    if q.closed
    then (q, closed_queue)
    else if is_full q
    then (q, full_queue)
    else (record q { values = q.values ++ (value ∷ []) }, enqueued)

-- `pop_front`, of the values of the queue.
unfoldable pub pop_front {ℓ} : {A : Type ℓ} → List A → List A × Option A
pop_front [] = ([], none)
pop_front (value ∷ values) = (values, some value)

-- `try_dequeue`
unfoldable pub try_dequeue {ℓ} : {A : Type ℓ} → BoundedQueue A → BoundedQueue A × Option A
unfolding pop_front
try_dequeue q = let (values, value) = pop_front q.values in (record q { values = values }, value)

unfoldable pub is_empty {ℓ} : {A : Type ℓ} → List A → Bool
is_empty [] = true
is_empty (value ∷ values) = false

-- `wait_dequeue`; `none` while the caller waits on the condition variable.
unfoldable pub wait_dequeue {ℓ} : {A : Type ℓ} → BoundedQueue A → Option (BoundedQueue A × Option A)
unfolding try_dequeue is_empty
wait_dequeue q = if not q.closed && is_empty q.values then none else some (try_dequeue q)

-- `close`
unfoldable pub close {ℓ} : {A : Type ℓ} → BoundedQueue A → BoundedQueue A × Bool
close q = if q.closed then (q, false) else (record q { closed = true }, true)
