-- ===== src/Queue/Tests.antt =====
-- Schedules of producers and consumers on a queue.
use nuke.Base.{ℕ, ◌≡◌, arith, [], ◌∷◌}
use nuke.Queue.{Queue, enqueue, dequeue, resume, new_queue, test_and_take, notify_one, is_empty}
use nuke.Queue.Steps.{History, Step, produce, consume, return_from_wait, Reach, initial}
use nuke.Queue.Order.{IsOrdered, Reach-IsOrdered}
use nuke.Queue.Waking.{Solo, Solo-NoSleeper, NoSleeper, enqueue_all, two_puts_wake_one}

-- A consumer waits, 7 and 8 are put, and the consumer takes 7.
abbrev waited : History ℕ
waited = record { queue = record { items = []; waiting = 1; woken = 0 }; put = []; taken = [] }

abbrev one_put : History ℕ
one_put = record {
  queue = record { items = 7 ∷ []; waiting = 0; woken = 1 };
  put = 7 ∷ [];
  taken = [];
}

abbrev two_put : History ℕ
two_put = record {
  queue = record { items = 7 ∷ 8 ∷ []; waiting = 0; woken = 1 };
  put = 7 ∷ 8 ∷ [];
  taken = [];
}

abbrev one_taken : History ℕ
one_taken = record {
  queue = record { items = 8 ∷ []; waiting = 0; woken = 0 };
  put = 7 ∷ 8 ∷ [];
  taken = 7 ∷ [];
}

to_waited : Step initial waited
unfolding new_queue dequeue test_and_take
to_waited = consume initial

to_one_put : Step waited one_put
unfolding enqueue notify_one is_empty
to_one_put = produce waited 7

to_two_put : Step one_put two_put
unfolding enqueue notify_one is_empty
to_two_put = produce one_put 8

to_one_taken : Step two_put one_taken
unfolding resume test_and_take
to_one_taken = return_from_wait two_put (omega arith)

Reach-one_taken : Reach one_taken
Reach-one_taken =
    Reach.later
      (Reach.later (Reach.later (Reach.later Reach.at_start to_waited) to_one_put) to_two_put)
      to_one_taken

Solo-two_put : Solo two_put
Solo-two_put =
    Solo.later
      (Solo.later (Solo.later Solo.at_start to_waited (omega arith)) to_one_put (omega arith))
      to_two_put (omega arith)

Reach-IsOrdered_example : IsOrdered one_taken
Reach-IsOrdered_example = Reach-IsOrdered Reach-one_taken

Solo-NoSleeper_example : NoSleeper two_put.queue
Solo-NoSleeper_example = Solo-NoSleeper Solo-two_put

-- Two consumers wait, 7 and 8 are put, one consumer takes 7, and 9 is put.
abbrev two_waiting : Queue ℕ
two_waiting = record { items = []; waiting = 2; woken = 0 }

abbrev one_asleep : Queue ℕ
one_asleep = record { items = 8 ∷ 9 ∷ []; waiting = 1; woken = 0 }

two_puts_wake_one_example :
    enqueue_all (resume (enqueue_all two_waiting (7 ∷ 8 ∷ []))).queue (9 ∷ []) ≡ one_asleep
two_puts_wake_one_example = two_puts_wake_one 7 8 (9 ∷ []) 0
