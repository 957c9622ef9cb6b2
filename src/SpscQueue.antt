-- ===== src/SpscQueue.antt =====
-- include/utils/lockfree_queue.hpp: the class template LockFreeQueue, of a size that is a power of
-- two, so that `& (Size - 1)` is the remainder by the size.
pub mod Contents
pub mod Threads
use high_performance_trading.Base.{
  ℕ, ◌+◌, ◌-◌, ◌%◌, Bool, true, false, Option, none, some, ◌==◌, leb, if◌then◌else◌,
}

pub record Queue {ℓ} (T : Type ℓ) : Type ℓ where
  pub head : ℕ
  pub tail : ℕ
  pub buffer : ℕ → T

-- `buffer[i] = item`
abbrev pub store_item {ℓ} : {T : Type ℓ} → ℕ → T → (ℕ → T) → ℕ → T
store_item i item buffer j = if i == j then item else buffer j

-- `(i + 1) & (Size - 1)`
abbrev pub next : ℕ → ℕ → ℕ
next size i = (i + 1) % size

abbrev pub capacity : ℕ → ℕ
capacity size = size - 1

module _ {ℓ} {T : Type ℓ} where
  unfoldable pub make_queue : (ℕ → T) → Queue T
  make_queue buffer = record { head = 0; tail = 0; buffer = buffer }

  unfoldable pub try_push : ℕ → T → Queue T → Queue T × Bool
  try_push size item q =
      if next size q.tail == q.head
      then (q, false)
      else (record q { buffer = store_item q.tail item q.buffer; tail = next size q.tail }, true)

  -- The answer is the popped item, `none` for false.
  unfoldable pub try_pop : ℕ → Queue T → Queue T × Option T
  try_pop size q =
      if q.head == q.tail
      then (q, none)
      else (record q { head = next size q.head }, some (q.buffer q.head))

  unfoldable pub is_empty : Queue T → Bool
  is_empty q = q.head == q.tail

  unfoldable pub is_full : ℕ → Queue T → Bool
  is_full size q = next size q.tail == q.head

  unfoldable pub count_items : ℕ → Queue T → ℕ
  count_items size q = if leb q.head q.tail then q.tail - q.head else size - q.head + q.tail
