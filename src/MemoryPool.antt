-- ===== src/MemoryPool.antt =====
-- include/utils/memory_pool.hpp: the class template MemoryPool, one call at a time, so that a
-- compare-and-exchange succeeds at once. The nodes are numbered in the order in which their blocks
-- come, and `next` is the pointer in each free node.
pub mod Ownership
use high_performance_trading.Base.{
  ℕ, zero, suc, ◌+◌, ◌*◌, Bool, ◌&&◌, Option, none, some, ◌==◌, leb, ltb, if◌then◌else◌,
}

pub record Pool : Type 0 where
  pub head : Option ℕ
  pub next : ℕ → Option ℕ
  pub blocks : ℕ

abbrev pub set_next : ℕ → Option ℕ → (ℕ → Option ℕ) → ℕ → Option ℕ
set_next node target next n = if node == n then target else next n

-- The pointers once the nodes from `base` to before `base + size` are linked, the last one to the
-- old head.
abbrev pub link_block : ℕ → ℕ → Option ℕ → (ℕ → Option ℕ) → ℕ → Option ℕ
link_block base size head next n =
    if leb base n && ltb n (base + size)
    then (if n + 1 == base + size then head else some (n + 1))
    else next n

-- `allocateBlock`
unfoldable pub allocate_block : ℕ → Pool → Pool
allocate_block size p =
    let base = p.blocks * size in
    record { head = some base; next = link_block base size p.head p.next; blocks = suc p.blocks }

unfoldable pub make_pool : ℕ → Pool
make_pool size = allocate_block size (record { head = none; next = λ n. none; blocks = 0 })

-- `allocate`, with fuel for the retry: `none` means that it ran out.
unfoldable pub allocate : ℕ → ℕ → Pool → Option (ℕ × Pool)
allocate zero size p = none
allocate (suc fuel) size p = elim p.head [
  | some node ↦ some (node, record p { head = p.next node })
  | none ↦ allocate fuel size (allocate_block size p)
]

-- `deallocate` of a pointer that is not null.
unfoldable pub deallocate : ℕ → Pool → Pool
deallocate node p = record p { head = some node; next = set_next node p.head p.next }

pub record PoolStats : Type 0 where
  pub blocks_allocated : ℕ
  pub total_capacity : ℕ

unfoldable pub get_pool_stats : ℕ → Pool → PoolStats
get_pool_stats size p = record { blocks_allocated = p.blocks; total_capacity = p.blocks * size }
