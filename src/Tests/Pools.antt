-- ===== src/Tests/Pools.antt =====
-- The memory pool at concrete inputs.
use high_performance_trading.Base.{ℕ, ◌≡◌, refl, [], ◌∷◌, some, none, arith, count}
use high_performance_trading.MemoryPool.{Pool, allocate_block, allocate, deallocate}
use high_performance_trading.MemoryPool.Ownership.{IsPool, allocate_lem, deallocate-IsPool}

-- A pool of one block of two nodes, with both handed out.
abbrev used : Pool
used = record { head = none; next = λ n. none; blocks = 1 }

used-IsPool : IsPool 2 used (1 ∷ 0 ∷ [])
used-IsPool = record { free = []; linked = refl; each = λ n. ground arith }

-- The next allocation makes a block and hands out its first node.
third :
    allocate 2 2 used
    ≡ some (2, record { head = some 3; next = (allocate_block 2 used).next; blocks = 2 })
unfolding allocate allocate_block
third = refl

allocate_lem_example :
    (node : ℕ) × (p' : Pool) × (allocate 2 2 used ≡ some (node, p'))
    × (count node (1 ∷ 0 ∷ []) ≡ 0)
    × IsPool 2 p' (node ∷ 1 ∷ 0 ∷ [])
allocate_lem_example = allocate_lem 2 used (1 ∷ 0 ∷ []) (omega arith) used-IsPool

deallocate-IsPool_example : IsPool 2 (deallocate 0 used) (1 ∷ [])
deallocate-IsPool_example = deallocate-IsPool 2 used (1 ∷ 0 ∷ []) 0 used-IsPool (omega arith)
