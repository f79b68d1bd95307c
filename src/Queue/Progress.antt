-- ===== src/Queue/Progress.antt =====
-- Items are taken in the order in which they were put, and what threads that sleep can miss.
use the_foundation.Base.{ℕ, ◌+◌, ◌<◌, ◌≤◌, List, ◌++◌, length, ◌≡◌}
use the_foundation.Queue.{Queue}

-- While a thread sleeps, there is for each item one that was woken, or that left.
record IsServed (q : Queue) (puts takes : List ℕ) (left : ℕ) : Type 0 where
  order : takes ++ q.items ≡ puts
  awake : 0 < q.waiting → length q.items ≤ q.woken + q.alert + left
