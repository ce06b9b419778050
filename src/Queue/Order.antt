-- ===== src/Queue/Order.antt =====
-- A queue gives its items back in the order in which they were put into it.
use nuke.Base.{ℕ, ◌-◌, ◌≡◌, refl, arith, List, [], ◌∷◌, ◌++◌, append_assoc, ap, sym, ◌∙◌}
use nuke.Queue.{Queue, enqueue, dequeue, resume, new_queue, test_and_take, notify_one}
use nuke.Queue.Steps.{
  History, Step, produce, consume, return_from_wait, wake_spuriously, Reach, at_start, later,
  and_result,
}

module _ {ℓ} {T : Type ℓ} where
  notify_one-items : (q : Queue T) → (notify_one q).items ≡ q.items
  unfolding notify_one
  notify_one-items q = ground arith

  enqueue-items : (q : Queue T) (val : T) → (enqueue q val).items ≡ q.items ++ val ∷ []
  unfolding enqueue
  enqueue-items q val = ground (arith, notify_one-items (record q { items = q.items ++ val ∷ [] }))

  -- Taking from the front, or waiting, moves an item from the queue to the end of what was taken.
  test_and_take-items :
      (taken items : List T) (waiting woken : ℕ)
      → and_result taken (test_and_take items waiting woken).result
          ++ (test_and_take items waiting woken).queue.items
        ≡ taken ++ items
  unfolding test_and_take
  test_and_take-items taken [] waiting woken = refl
  test_and_take-items taken (x ∷ items) waiting woken = append_assoc taken (x ∷ []) items

  abbrev pub IsOrdered : History T → Type ℓ
  IsOrdered h = h.put ≡ h.taken ++ h.queue.items

  Step-IsOrdered : {h k : History T} → Step h k → IsOrdered h → IsOrdered k
  unfolding dequeue resume
  Step-IsOrdered (produce h val) e =
      ap (λ (t : List T). t ++ val ∷ []) e
      ∙ append_assoc h.taken h.queue.items (val ∷ [])
      ∙ ap (λ (t : List T). h.taken ++ t) (sym (enqueue-items h.queue val))
  Step-IsOrdered (consume h) e =
      e ∙ sym (test_and_take-items h.taken h.queue.items h.queue.waiting h.queue.woken)
  Step-IsOrdered (return_from_wait h w) e =
      e ∙ sym (test_and_take-items h.taken h.queue.items h.queue.waiting (h.queue.woken - 1))
  Step-IsOrdered (wake_spuriously h w) e = e

  -- However producers and consumers take turns, and whichever threads wake up, what was put into a
  -- queue is what was taken out of it, in the same order, followed by the items that are in it.
  pub Reach-IsOrdered : {h : History T} → Reach h → IsOrdered h
  unfolding new_queue
  Reach-IsOrdered at_start = refl
  Reach-IsOrdered (later r s) = Step-IsOrdered s (Reach-IsOrdered r)
