-- ===== src/Queue/Steps.antt =====
-- The steps of producers and consumers on one queue, in any order.
use nuke.Base.{suc, ◌-◌, ◌<◌, List, [], ◌∷◌, ◌++◌, Option, none, some}
use nuke.Queue.{Queue, enqueue, dequeue, resume, new_queue}

-- The queue with what was put into it and what was taken out so far.
pub record History {ℓ} (T : Type ℓ) : Type ℓ where
  pub queue : Queue T
  pub put : List T
  pub taken : List T

abbrev pub and_result {ℓ} : {T : Type ℓ} → List T → Option T → List T
and_result xs none = xs
and_result xs (some x) = xs ++ x ∷ []

module _ {ℓ} {T : Type ℓ} where
  -- A producer, a consumer that begins, a consumer that was notified, and a wakeup without a cause,
  -- which the standard allows.
  pub data Step : History T → History T → Type ℓ where
    produce :
        (h : History T) (val : T)
        → Step h (record h { queue = enqueue h.queue val; put = h.put ++ val ∷ [] })
    consume :
        (h : History T)
        → Step h (record h {
          queue = (dequeue h.queue).queue;
          taken = and_result h.taken (dequeue h.queue).result;
        })
    return_from_wait :
        (h : History T)
        → 0 < h.queue.woken
        → Step h (record h {
          queue = (resume h.queue).queue;
          taken = and_result h.taken (resume h.queue).result;
        })
    wake_spuriously :
        (h : History T)
        → 0 < h.queue.waiting
        → Step h (record h {
          queue = record h.queue { waiting = h.queue.waiting - 1; woken = suc h.queue.woken };
        })

  abbrev pub initial : History T
  initial = record { queue = new_queue; put = []; taken = [] }

  pub data Reach : History T → Type ℓ where
    at_start : Reach initial
    later : {h k : History T} → Reach h → Step h k → Reach k
