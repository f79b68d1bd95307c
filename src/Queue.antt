-- ===== src/Queue.antt =====
-- The queues of src/queue.c between threads. Each section that a mutex guards is one step. A thread
-- that waits for the condition in `take_Queue` or `takeTimeout_Queue` is `waiting`, one that waits in
-- `waitForItems_Queue` is `watching`; a signal, or the machine without one, wakes it: then it is
-- `woken`, or `alert`, and goes on when it has the mutex again. The items are the sequence of an
-- object list.
pub mod Progress
mod Tests
use the_foundation.Base.{
  ℕ, suc, ◌+◌, ◌-◌, ◌<◌, Bool, ◌&&◌, ◌||◌, Option, none, some, List, [], ◌∷◌, ◌++◌, length, ltb,
  ◌==◌, if◌then◌else◌,
}

pub record Queue : Type 0 where
  pub items : List ℕ
  pub waiting : ℕ
  pub woken : ℕ
  pub watching : ℕ
  pub alert : ℕ

-- `init_Queue`
abbrev pub init : Queue
init = record { items = []; waiting = 0; woken = 0; watching = 0; alert = 0 }

-- The kind of the thread that a signal prefers: any thread that waits can be the one.
pub data Thread : Type 0 where
  taker watcher : Thread

abbrev pub wake_taker : Queue → Queue
wake_taker q = record q { waiting = q.waiting - 1; woken = q.woken + 1 }

abbrev pub wake_watcher : Queue → Queue
wake_watcher q = record q { watching = q.watching - 1; alert = q.alert + 1 }

-- `signal_Condition`: one of the threads that wait is woken, if there is one.
unfoldable pub signal : Thread → Queue → Queue
signal taker q =
    if ltb 0 q.waiting then wake_taker q else if ltb 0 q.watching then wake_watcher q else q
signal watcher q =
    if ltb 0 q.watching then wake_watcher q else if ltb 0 q.waiting then wake_taker q else q

-- `put_Queue`
unfoldable pub put : Thread → Queue → ℕ → Queue
put choice q item = signal choice (record q { items = q.items ++ (item ∷ []) })

-- `takeFront_ObjectList`
abbrev pub take_front : List ℕ → Option ℕ × List ℕ
take_front [] = (none, [])
take_front (item ∷ items) = (some item, items)

-- `tryTake_Queue`
unfoldable pub try_take : Queue → Option ℕ × Queue
try_take q = ((take_front q.items).0, record q { items = (take_front q.items).1 })

-- A round of the loop of `take_Queue` or `takeTimeout_Queue`: the item, or the thread waits.
unfoldable pub take_round : Queue → Option ℕ × Queue
take_round q = elim ((take_front q.items).0) [
  | none ↦ (none, record q { waiting = q.waiting + 1 })
  | some item ↦ (some item, record q { items = (take_front q.items).1 })
]

-- A woken thread that goes on.
abbrev pub resume : Queue → Queue
resume q = record q { woken = q.woken - 1 }

-- The start of `waitForItems_Queue`: the thread waits if there is no item.
unfoldable pub watch : Queue → Queue
watch q = if length q.items == 0 then record q { watching = q.watching + 1 } else q

-- The end of `waitForItems_Queue`: the thread goes on, and looks at no item.
abbrev pub end_watch : Queue → Queue
end_watch q = record q { alert = q.alert - 1 }

-- `size_Queue`
abbrev pub size : Queue → ℕ
size q = length q.items

abbrev pub as_list : Option ℕ → List ℕ
as_list none = []
as_list (some item) = item ∷ []

-- The queues that threads can reach, with the items that were put, those that were taken, and the
-- count of the threads that were woken and left without looking at the items: those of
-- `waitForItems_Queue`, and those whose time ended as well.
pub data Reach : Queue → (puts takes : List ℕ) → (left : ℕ) → Type 0 where
  start : Reach init [] [] 0
  after_put :
      {q : Queue} {puts takes : List ℕ} {left : ℕ} (choice : Thread) (item : ℕ)
      → Reach q puts takes left
      → Reach (put choice q item) (puts ++ (item ∷ [])) takes left
  after_try_take :
      {q : Queue} {puts takes : List ℕ} {left : ℕ}
      → Reach q puts takes left
      → Reach ((try_take q).1) puts (takes ++ as_list ((try_take q).0)) left
  after_take :
      {q : Queue} {puts takes : List ℕ} {left : ℕ}
      → Reach q puts takes left
      → Reach ((take_round q).1) puts (takes ++ as_list ((take_round q).0)) left
  after_resume :
      {q : Queue} {puts takes : List ℕ} {left : ℕ}
      → 0 < q.woken
      → Reach q puts takes left
      → Reach ((take_round (resume q)).1) puts (takes ++ as_list ((take_round (resume q)).0)) left
  -- Waking with no signal.
  after_wake :
      {q : Queue} {puts takes : List ℕ} {left : ℕ}
      → 0 < q.waiting
      → Reach q puts takes left
      → Reach (wake_taker q) puts takes left
  -- A wait of `takeTimeout_Queue` that ends by its timeout.
  after_timeout :
      {q : Queue} {puts takes : List ℕ} {left : ℕ}
      → 0 < q.waiting
      → Reach q puts takes left
      → Reach (record q { waiting = q.waiting - 1 }) puts takes left
  -- A wait of `takeTimeout_Queue` that is given a signal and ends by its timeout all the same.
  after_late_signal :
      {q : Queue} {puts takes : List ℕ} {left : ℕ}
      → 0 < q.woken
      → Reach q puts takes left
      → Reach (resume q) puts takes (suc left)
  after_watch :
      {q : Queue} {puts takes : List ℕ} {left : ℕ}
      → Reach q puts takes left
      → Reach (watch q) puts takes left
  after_wake_watcher :
      {q : Queue} {puts takes : List ℕ} {left : ℕ}
      → 0 < q.watching
      → Reach q puts takes left
      → Reach (wake_watcher q) puts takes left
  after_end_watch :
      {q : Queue} {puts takes : List ℕ} {left : ℕ}
      → 0 < q.alert
      → Reach q puts takes left
      → Reach (end_watch q) puts takes (suc left)
