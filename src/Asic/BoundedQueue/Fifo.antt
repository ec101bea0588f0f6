-- ===== src/Asic/BoundedQueue/Fifo.antt =====
-- Any sequence of calls of the queue, by any number of threads: what it takes in, and what it gives out.
use mathlib.Core.Path.{subst}
use hzl_silicon_switch_lab.Base.{
  ℕ, ◌≤◌, ◌<◌, ◌≡◌, refl, ap, ◌∙◌, sym, true, false, not, ◌&&◌, List, [], ◌∷◌, ◌++◌, Option, none,
  some, arith, leb, length, length-append, Bool-cases, inl, inr, ◌⊎◌, ◌==◌, some_inj,
}
use hzl_silicon_switch_lab.Asic.BoundedQueue.{
  BoundedQueue, QueueEnqueueResult, enqueued, full_queue, closed_queue, create_queue, is_full,
  try_enqueue, pop_front, try_dequeue, is_empty, wait_dequeue, close,
}

-- A call of a method. A waiting call is made again when it is woken.
pub data Call {ℓ} (A : Type ℓ) : Type ℓ where
  enqueue_call : A → Call A
  dequeue_call wait_call close_call : Call A

-- The queue, with the values that it accepted and the values that it gave out, in order.
pub record Trace {ℓ} (A : Type ℓ) : Type ℓ where
  pub queue : BoundedQueue A
  pub accepted : List A
  pub delivered : List A

unfoldable pub one {ℓ} : {A : Type ℓ} → Option A → List A
one none = []
one (some value) = value ∷ []

unfoldable pub accept {ℓ} :
    {A : Type ℓ} → Trace A → A → BoundedQueue A × QueueEnqueueResult → Trace A
accept t value (q, enqueued) = record t { queue = q; accepted = t.accepted ++ (value ∷ []) }
accept t value (q, full_queue) = record t { queue = q }
accept t value (q, closed_queue) = record t { queue = q }

unfoldable pub deliver {ℓ} : {A : Type ℓ} → Trace A → BoundedQueue A × Option A → Trace A
unfolding one
deliver t (q, value) = record t { queue = q; delivered = t.delivered ++ one value }

unfoldable pub woken {ℓ} : {A : Type ℓ} → Trace A → Option (BoundedQueue A × Option A) → Trace A
unfolding deliver
woken t none = t
woken t (some result) = deliver t result

unfoldable pub perform {ℓ} : {A : Type ℓ} → Trace A → Call A → Trace A
unfolding accept woken
perform t (enqueue_call value) = accept t value (try_enqueue t.queue value)
perform t dequeue_call = deliver t (try_dequeue t.queue)
perform t wait_call = woken t (wait_dequeue t.queue)
perform t close_call = record t { queue = (close t.queue).0 }

unfoldable pub run {ℓ} : {A : Type ℓ} → Trace A → List (Call A) → Trace A
unfolding perform
run t [] = t
run t (call ∷ calls) = run (perform t call) calls

-- First in, first out, and never more than the capacity.
pub record IsFifo {ℓ} {A : Type ℓ} (capacity : ℕ) (t : Trace A) : Type ℓ where
  pub in_order : t.accepted ≡ t.delivered ++ t.queue.values
  pub bounded : length t.queue.values ≤ t.queue.capacity
  pub same_capacity : t.queue.capacity ≡ capacity

module _ {ℓ} {A : Type ℓ} where
  append_assoc : (xs ys zs : List A) → (xs ++ ys) ++ zs ≡ xs ++ (ys ++ zs)
  append_assoc [] ys zs = refl
  append_assoc (x ∷ xs) ys zs = ap (λ t. x ∷ t) (append_assoc xs ys zs)

  -- A call puts a value in only when the queue is open and has room.
  try_enqueue-cases :
      (q : BoundedQueue A) (value : A)
      → (try_enqueue q value ≡ (q, closed_queue))
        ⊎ ((try_enqueue q value ≡ (q, full_queue))
            ⊎ (length q.values < q.capacity)
              × (q.closed ≡ false)
              × (try_enqueue q value ≡ (record q { values = q.values ++ (value ∷ []) }, enqueued)))
  unfolding try_enqueue is_full
  try_enqueue-cases q value = elim (Bool-cases q.closed) [
    | inl shut ↦ inl (simp shut)
    | inr opened ↦ inr (elim (Bool-cases (leb q.capacity (length q.values))) [
      | inl full ↦ inl (simp (opened, full))
      | inr room ↦ inr (ground (arith, room), opened, simp (opened, room))
    ])
  ]

  values-close : (q : BoundedQueue A) → (close q).0.values ≡ q.values
  unfolding close
  values-close q = ground arith

  capacity-close : (q : BoundedQueue A) → (close q).0.capacity ≡ q.capacity
  unfolding close
  capacity-close q = ground arith

  pop_front_lem :
      (values : List A)
      → (one (pop_front values).1 ++ (pop_front values).0 ≡ values)
        × (length (pop_front values).0 ≤ length values)
  unfolding pop_front one
  pop_front_lem [] = (refl, omega arith)
  pop_front_lem (value ∷ values) = (refl, omega arith)

module _ {ℓ} {A : Type ℓ} (capacity : ℕ) (t : Trace A) where
  enqueue-IsFifo :
      (value : A) → IsFifo capacity t → IsFifo capacity (accept t value (try_enqueue t.queue value))
  unfolding accept
  enqueue-IsFifo value v =
      let P : BoundedQueue A × QueueEnqueueResult → Type ℓ =
        λ r. IsFifo capacity (accept t value r) in
      elim (try_enqueue-cases t.queue value) [
        | inl e ↦
            subst P (sym e) (record {
              in_order = v.in_order;
              bounded = v.bounded;
              same_capacity = v.same_capacity;
            })
        | inr (inl e) ↦
            subst P (sym e) (record {
              in_order = v.in_order;
              bounded = v.bounded;
              same_capacity = v.same_capacity;
            })
        | inr (inr (room, opened, e)) ↦ subst P (sym e) (record {
          in_order =
              ap (λ xs. xs ++ (value ∷ [])) v.in_order
              ∙ append_assoc t.delivered t.queue.values (value ∷ []);
          bounded = omega (arith, room, length-append t.queue.values (value ∷ []));
          same_capacity = v.same_capacity;
        })
      ]

  deliver-IsFifo : IsFifo capacity t → IsFifo capacity (deliver t (try_dequeue t.queue))
  unfolding deliver try_dequeue
  deliver-IsFifo v =
      let (whole, shorter) = pop_front_lem t.queue.values in
      record {
        in_order =
            v.in_order
            ∙ (ap (λ xs. t.delivered ++ xs) (sym whole) ∙ sym (append_assoc t.delivered _ _));
        bounded = omega (arith, shorter, v.bounded);
        same_capacity = v.same_capacity;
      }

  wait-IsFifo : IsFifo capacity t → IsFifo capacity (woken t (wait_dequeue t.queue))
  unfolding woken wait_dequeue
  wait-IsFifo v = elim (Bool-cases (not t.queue.closed && is_empty t.queue.values)) [
    | inl waiting ↦ rw waiting v
    | inr ready ↦ rw ready (deliver-IsFifo v)
  ]

  close-IsFifo : IsFifo capacity t → IsFifo capacity (record t { queue = (close t.queue).0 })
  close-IsFifo v = record {
    in_order = rw (values-close t.queue) v.in_order;
    bounded =
        omega
          (arith, ap (length {A = A}) (values-close t.queue), capacity-close t.queue, v.bounded);
    same_capacity = capacity-close t.queue ∙ v.same_capacity;
  }

module _ {ℓ} {A : Type ℓ} where
  perform-IsFifo :
      (capacity : ℕ) (t : Trace A) (call : Call A)
      → IsFifo capacity t
      → IsFifo capacity (perform t call)
  unfolding perform
  perform-IsFifo capacity t (enqueue_call value) v = enqueue-IsFifo capacity t value v
  perform-IsFifo capacity t dequeue_call v = deliver-IsFifo capacity t v
  perform-IsFifo capacity t wait_call v = wait-IsFifo capacity t v
  perform-IsFifo capacity t close_call v = close-IsFifo capacity t v

  calls-IsFifo :
      (capacity : ℕ) (t : Trace A) (calls : List (Call A))
      → IsFifo capacity t
      → IsFifo capacity (run t calls)
  unfolding run
  calls-IsFifo capacity t [] v = v
  calls-IsFifo capacity t (call ∷ calls) v =
      calls-IsFifo capacity (perform t call) calls (perform-IsFifo capacity t call v)

  abbrev pub begin : BoundedQueue A → Trace A
  begin q = record { queue = q; accepted = []; delivered = [] }

  create_queue-IsFifo :
      (capacity : ℕ) (q : BoundedQueue A)
      → create_queue capacity ≡ some q
      → IsFifo capacity (begin q)
  unfolding create_queue
  create_queue-IsFifo capacity q e = elim (Bool-cases (capacity == 0)) [
    | inl zero_capacity ↦ cc (rw zero_capacity at e)
    | inr positive ↦
        subst (λ q. IsFifo capacity (begin q)) (some_inj (rw positive at e))
          (record { in_order = refl; bounded = omega arith; same_capacity = refl })
  ]

  -- Whatever calls are made of a new queue, in whatever order, the values that it gave out followed
  -- by the values that it holds are the values that it accepted, in order, and it never holds more
  -- than its capacity.
  pub run-IsFifo :
      (capacity : ℕ) (q : BoundedQueue A) (calls : List (Call A))
      → create_queue capacity ≡ some q
      → IsFifo capacity (run (begin q) calls)
  run-IsFifo capacity q calls e =
      calls-IsFifo capacity (begin q) calls (create_queue-IsFifo capacity q e)

  perform_closed :
      (t : Trace A) (call : Call A)
      → t.queue.closed ≡ true
      → ((perform t call).accepted ≡ t.accepted) × ((perform t call).queue.closed ≡ true)
  unfolding perform try_enqueue accept deliver try_dequeue woken wait_dequeue close
  perform_closed t (enqueue_call value) shut = simp shut (refl, refl)
  perform_closed t dequeue_call shut = (refl, shut)
  perform_closed t wait_call shut = simp shut (refl, refl)
  perform_closed t close_call shut = simp shut (refl, refl)

  -- Once a queue is closed it stays closed and accepts nothing more, whatever calls are made of it.
  pub run_closed :
      (t : Trace A) (calls : List (Call A))
      → t.queue.closed ≡ true
      → ((run t calls).accepted ≡ t.accepted) × ((run t calls).queue.closed ≡ true)
  unfolding run
  run_closed t [] shut = (refl, shut)
  run_closed t (call ∷ calls) shut =
      let (same, still) = perform_closed t call shut in
      let (same_after, still_after) = run_closed (perform t call) calls still in
      (same_after ∙ same, still_after)
