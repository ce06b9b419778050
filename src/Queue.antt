-- ===== src/Queue.antt =====
-- System/Collections/Concurrent/ConcurrentQueue.h. The mutex makes what a thread does between locking
-- and unlocking or waiting one step, so the state is what the mutex guards and how many threads wait.
pub mod Steps
pub mod Order
pub mod Waking
pub mod Tests
use nuke.Base.{
  ℕ, suc, ◌+◌, ◌-◌, Bool, true, false, List, [], ◌∷◌, ◌++◌, if◌then◌else◌, ltb, ◌&&◌, Option, none,
  some,
}

-- `waiting` threads are blocked in `wait`; `woken` threads were notified and lock the mutex again.
pub record Queue {ℓ} (T : Type ℓ) : Type ℓ where
  pub items : List T
  pub waiting : ℕ
  pub woken : ℕ

module _ {ℓ} {T : Type ℓ} where
  unfoldable pub is_empty : List T → Bool
  is_empty [] = true
  is_empty (x ∷ xs) = false

  -- notify_one
  unfoldable pub notify_one : Queue T → Queue T
  notify_one q =
      if ltb 0 q.waiting then record q { waiting = q.waiting - 1; woken = suc q.woken } else q

  unfoldable pub enqueue : Queue T → T → Queue T
  enqueue q val =
      let pushed = record q { items = q.items ++ val ∷ [] } in
      if is_empty q.items then notify_one pushed else pushed

  -- The loop of Dequeue from its test on, with the mutex held: it waits, or it returns an item.
  unfoldable pub test_and_take :
      List T → (waiting woken : ℕ) → record { queue : Queue T; result : Option T }
  test_and_take [] waiting woken = record {
    queue = record { items = []; waiting = suc waiting; woken = woken };
    result = none;
  }
  test_and_take (front ∷ rest) waiting woken = record {
    queue = record { items = rest; waiting = waiting; woken = woken };
    result = some front;
  }

  -- A call of Dequeue, and the return of a notified thread from `wait`.
  unfoldable pub dequeue : Queue T → record { queue : Queue T; result : Option T }
  dequeue q = test_and_take q.items q.waiting q.woken

  unfoldable pub resume : Queue T → record { queue : Queue T; result : Option T }
  resume q = test_and_take q.items q.waiting (q.woken - 1)

  unfoldable pub new_queue : Queue T
  new_queue = record { items = []; waiting = 0; woken = 0 }
