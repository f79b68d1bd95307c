-- ===== src/Queue/Tests.antt =====
-- Two takers sleep, and one item is put; and a thread that waits for items is given the signal.
use the_foundation.Base.{[], ◌∷◌, arith}
use the_foundation.Queue.{
  Queue, watcher, signal, put, take_round, watch, Reach, start, after_put, after_take, after_watch,
  after_end_watch,
}

abbrev one_put : Queue
one_put = record { items = 5 ∷ []; waiting = 1; woken = 1; watching = 0; alert = 0 }

-- The signal went to the thread that only waits for items: a taker sleeps, there is an item, and no
-- thread is woken.
abbrev missed : Queue
missed = record { items = 5 ∷ []; waiting = 1; woken = 0; watching = 0; alert = 0 }

missed-Reach : Reach missed (5 ∷ []) [] 1
unfolding put take_round signal watch
missed-Reach = after_end_watch (omega arith) (after_put watcher 5 (after_watch (after_take start)))
