-- ===== src/Queue/Waking.antt =====
-- Which threads `notify_one` wakes, and which it leaves asleep.
use nuke.Base.{
  ℕ, zero, suc, ◌+◌, ◌-◌, ◌≤◌, ◌<◌, ◌≡◌, refl, arith, List, [], ◌∷◌, ◌++◌, ap, sym, ◌∙◌,
  append_assoc, append_nil,
}
use nuke.Queue.{Queue, enqueue, dequeue, resume, new_queue, test_and_take, notify_one, is_empty}
use nuke.Queue.Steps.{History, Step, produce, consume, return_from_wait, wake_spuriously, initial}

module _ {ℓ} {T : Type ℓ} where
  -- The steps of any number of producers and one consumer.
  pub data Solo : History T → Type ℓ where
    at_start : Solo initial
    later : {h k : History T} → Solo h → Step h k → k.queue.waiting + k.queue.woken ≤ 1 → Solo k

  -- No thread sleeps on a queue with items.
  abbrev pub NoSleeper : Queue T → Type ℓ
  NoSleeper q = (0 < q.waiting → q.items ≡ []) × (q.waiting + q.woken ≤ 1)

  cons_not_nil : {x : T} {xs : List T} → ¬ (x ∷ xs ≡ [])
  cons_not_nil e = ground (arith, e)

  notify_one_lem :
      (items : List T) (waiting woken : ℕ)
      → notify_one (record { items = items; waiting = suc waiting; woken = woken })
        ≡ (record { items = items; waiting = waiting; woken = suc woken })
  unfolding notify_one
  notify_one_lem items waiting woken = ground arith

  enqueue_empty :
      (waiting woken : ℕ) (val : T)
      → enqueue (record { items = []; waiting = suc waiting; woken = woken }) val
        ≡ (record { items = val ∷ []; waiting = waiting; woken = suc woken })
  unfolding enqueue is_empty
  enqueue_empty waiting woken val = notify_one_lem (val ∷ []) waiting woken

  enqueue_at-NoSleeper :
      (items : List T) (waiting woken : ℕ) (val : T)
      → (0 < waiting → items ≡ [])
      → waiting + woken ≤ 1
      → NoSleeper (enqueue (record { items = items; waiting = waiting; woken = woken }) val)
  unfolding enqueue notify_one is_empty
  enqueue_at-NoSleeper [] zero woken val asleep few = (λ more. absurd (omega (arith, more)), few)
  enqueue_at-NoSleeper [] (suc waiting) woken val asleep few =
      rw (enqueue_empty waiting woken val)
        (λ more. absurd (omega (arith, more, few)), omega (arith, few))
  enqueue_at-NoSleeper (x ∷ xs) waiting woken val asleep few =
      (λ more. absurd (cons_not_nil (asleep more)), few)

  enqueue-NoSleeper : (q : Queue T) (val : T) → NoSleeper q → NoSleeper (enqueue q val)
  enqueue-NoSleeper q val n = enqueue_at-NoSleeper q.items q.waiting q.woken val n.0 n.1

  test_and_take-NoSleeper :
      (items : List T) (waiting woken : ℕ)
      → (0 < waiting → items ≡ [])
      → (test_and_take items waiting woken).queue.waiting
          + (test_and_take items waiting woken).queue.woken
        ≤ 1
      → NoSleeper (test_and_take items waiting woken).queue
  unfolding test_and_take
  test_and_take-NoSleeper [] waiting woken asleep few = (λ more. refl, few)
  test_and_take-NoSleeper (x ∷ xs) waiting woken asleep few =
      (λ more. absurd (cons_not_nil (asleep more)), few)

  Step-NoSleeper :
      {h k : History T}
      → Step h k
      → k.queue.waiting + k.queue.woken ≤ 1
      → NoSleeper h.queue
      → NoSleeper k.queue
  unfolding dequeue resume
  Step-NoSleeper (produce h val) few n = enqueue-NoSleeper h.queue val n
  Step-NoSleeper (consume h) few n =
      test_and_take-NoSleeper h.queue.items h.queue.waiting h.queue.woken n.0 few
  Step-NoSleeper (return_from_wait h w) few n =
      test_and_take-NoSleeper h.queue.items h.queue.waiting (h.queue.woken - 1) n.0 few
  Step-NoSleeper (wake_spuriously h w) few n =
      (λ more. absurd (omega (arith, more, w, few, n.1)), few)

  -- With any producers and one consumer, so that at most one thread is in `Dequeue` and waits, that
  -- thread never waits without a notification while the queue has items.
  pub Solo-NoSleeper : {h : History T} → Solo h → NoSleeper h.queue
  unfolding new_queue
  Solo-NoSleeper at_start = (λ more. refl, omega arith)
  Solo-NoSleeper (later r s few) = Step-NoSleeper s few (Solo-NoSleeper r)

  abbrev pub enqueue_all : Queue T → List T → Queue T
  enqueue_all q [] = q
  enqueue_all q (x ∷ xs) = enqueue_all (enqueue q x) xs

  enqueue_all-full :
      (x : T) (xs vals : List T) (w : ℕ)
      → enqueue_all (record { items = x ∷ xs; waiting = w; woken = 0 }) vals
        ≡ (record { items = x ∷ xs ++ vals; waiting = w; woken = 0 })
  unfolding enqueue is_empty
  enqueue_all-full x xs [] w =
      ap (λ (t : List T). record { items = x ∷ t; waiting = w; woken = 0 }) (sym (append_nil xs))
  enqueue_all-full x xs (val ∷ vals) w =
      enqueue_all-full x (xs ++ val ∷ []) vals w
      ∙ ap (λ (t : List T). record { items = x ∷ t; waiting = w; woken = 0 })
          (append_assoc xs (val ∷ []) vals)

  enqueue-full :
      (x val : T) (xs : List T) (waiting woken : ℕ)
      → enqueue (record { items = x ∷ xs; waiting = waiting; woken = woken }) val
        ≡ (record { items = x ∷ xs ++ val ∷ []; waiting = waiting; woken = woken })
  unfolding enqueue is_empty
  enqueue-full x val xs waiting woken = refl

  two_puts :
      (first second : T) (w : ℕ)
      → enqueue_all (record { items = []; waiting = suc (suc w); woken = 0 }) (first ∷ second ∷ [])
        ≡ (record { items = first ∷ second ∷ []; waiting = suc w; woken = 1 })
  two_puts first second w =
      ap (λ (q : Queue T). enqueue q second) (enqueue_empty (suc w) 0 first)
      ∙ enqueue-full first second [] (suc w) 1

  -- If at least two consumers wait on an empty queue, and two items are put before the consumer
  -- that is notified takes one, then the others sleep while the queue has an item, and no number of
  -- further calls of `Enqueue` wakes them.
  pub two_puts_wake_one :
      (first second : T) (vals : List T) (w : ℕ)
      → enqueue_all
          (resume (
            enqueue_all
              (record { items = []; waiting = suc (suc w); woken = 0 })
              (first ∷ second ∷ []))).queue
          vals
        ≡ (record { items = second ∷ vals; waiting = suc w; woken = 0 })
  unfolding resume test_and_take
  two_puts_wake_one first second vals w =
      rw (two_puts first second w) (enqueue_all-full second [] vals (suc w))
