-- ===== src/MemoryPool/Ownership.antt =====
-- Every node of the pool is either free or handed out, once.
use high_performance_trading.Base.{
  ℕ, zero, suc, ◌+◌, ◌*◌, ◌<◌, ◌≤◌, ◌≡◌, refl, sym, ap, subst, ◌∙◌, ◌&&◌, Option, none, some,
  Option-cases, List, [], ◌∷◌, ◌++◌, leb, ltb, if◌then◌else◌, count, count-append, erase,
  count-erase, All, All-count, arith, inl, inr,
}
use high_performance_trading.MemoryPool.{
  Pool, set_next, link_block, allocate_block, make_pool, allocate, deallocate,
}

-- The free list from a pointer on.
abbrev pub IsLinked : (ℕ → Option ℕ) → Option ℕ → List ℕ → Type 0
IsLinked next head [] = head ≡ none
IsLinked next head (n ∷ ns) = (head ≡ some n) × IsLinked next (next n) ns

-- The nodes from `n` on, as many as are asked for.
unfoldable pub numbers : ℕ → ℕ → List ℕ
numbers n zero = []
numbers n (suc k) = n ∷ numbers (suc n) k

-- A pool that has handed out the nodes of a list.
pub record IsPool (size : ℕ) (p : Pool) (out : List ℕ) : Type 0 where
  pub free : List ℕ
  pub linked : IsLinked p.next p.head free
  pub each : (n : ℕ) → count n free + count n out ≡ (if ltb n (p.blocks * size) then 1 else 0)

count-numbers : (n i k : ℕ) → count n (numbers i k) ≡ (if leb i n && ltb n (i + k) then 1 else 0)
unfolding numbers
count-numbers n i zero = ground arith
count-numbers n i (suc k) = ground (arith, count-numbers n (suc i) k)

-- Pointers elsewhere do not matter.
IsLinked-frame :
    (next next' : ℕ → Option ℕ) (head : Option ℕ) (ns : List ℕ)
    → All (λ n. next' n ≡ next n) ns
    → IsLinked next head ns
    → IsLinked next' head ns
IsLinked-frame next next' head [] same h = h
IsLinked-frame next next' head (n ∷ ns) same h = (
  h.0,
  IsLinked-frame next next' (next' n) ns same.1
      (subst (λ (m : Option ℕ). IsLinked next m ns) (sym same.0) h.1),
)

block-IsLinked :
    (base size i k : ℕ) (head : Option ℕ) (next : ℕ → Option ℕ) (ns : List ℕ)
    → base ≤ i
    → i + suc k ≡ base + size
    → IsLinked (link_block base size head next) head ns
    → IsLinked (link_block base size head next) (some i) (numbers i (suc k) ++ ns)
unfolding numbers
block-IsLinked base size i zero head next ns le e h = (
  refl,
  subst (λ (m : Option ℕ). IsLinked (link_block base size head next) m ns) (ground arith) h,
)
block-IsLinked base size i (suc k) head next ns le e h = (
  refl,
  subst
      (λ (m : Option ℕ).
        IsLinked (link_block base size head next) m (numbers (suc i) (suc k) ++ ns))
      (ground arith)
      (block-IsLinked base size (suc i) k head next ns (omega arith) (omega arith) h),
)

-- A node of the new block was not there before.
counted_block :
    (n base size whole in_free in_out : ℕ) {in_all : ℕ}
    → whole ≡ base + size
    → in_all ≡ (if leb base n && ltb n (base + size) then 1 else 0) + in_free
    → in_free + in_out ≡ (if ltb n base then 1 else 0)
    → in_all + in_out ≡ (if ltb n whole then 1 else 0)
counted_block n base size whole in_free in_out e all before = ground arith

allocate_block-IsPool :
    (size : ℕ) (p : Pool) (out : List ℕ)
    → 0 < size
    → IsPool size p out
    → IsPool size (allocate_block size p) out
unfolding allocate_block
allocate_block-IsPool zero p out h v = absurd (omega arith)
allocate_block-IsPool (suc k) p out h v = record {
  free = numbers (p.blocks * suc k) (suc k) ++ v.free;
  linked =
      block-IsLinked (p.blocks * suc k) (suc k) (p.blocks * suc k) k p.head p.next v.free
        (omega arith) refl
        (IsLinked-frame p.next _ p.head v.free
          (All-count v.free (λ n in_free. ground (arith, v.each n))) v.linked);
  each = λ n.
      counted_block n (p.blocks * suc k) (suc k) (suc p.blocks * suc k) _ _ (omega arith)
        (count-append n (numbers (p.blocks * suc k) (suc k)) v.free
          ∙ ap (λ (c : ℕ). c + count n v.free) (count-numbers n (p.blocks * suc k) (suc k)))
        (v.each n);
}

-- The node at the head is free, and is the caller's once it is popped.
pop_node :
    (size : ℕ) (p : Pool) (out : List ℕ) (node : ℕ)
    → IsPool size p out
    → p.head ≡ some node
    → IsPool size (record p { head = p.next node }) (node ∷ out) × (count node out ≡ 0)
pop_node size p out node v e = first_free v.free v.linked v.each
  where
    some_injective : {a b : ℕ} → some a ≡ some b → a ≡ b
    some_injective h = cc

    first_free :
        (ns : List ℕ)
        → IsLinked p.next p.head ns
        → ((n : ℕ) → count n ns + count n out ≡ (if ltb n (p.blocks * size) then 1 else 0))
        → IsPool size (record p { head = p.next node }) (node ∷ out) × (count node out ≡ 0)
    first_free [] linked each = absurd (cc (e, linked))
    first_free (n ∷ ns) linked each =
        let same : n ≡ node = some_injective (sym linked.0 ∙ e) in
        (
          record {
            free = ns;
            linked = subst (λ (k : ℕ). IsLinked p.next (p.next k) ns) same linked.1;
            each = λ k. ground (arith, each k, same);
          },
          ground (arith, each node, same),
        )

-- In a pool of blocks of positive size in which every node is free or handed out exactly once,
-- allocate returns after at most one retry, with a node that was not handed out, and every node
-- is again free or handed out exactly once.
pub allocate_lem :
    (size : ℕ) (p : Pool) (out : List ℕ)
    → 0 < size
    → IsPool size p out
    → (node : ℕ) × (p' : Pool) × (allocate 2 size p ≡ some (node, p'))
      × (count node out ≡ 0)
      × IsPool size p' (node ∷ out)
unfolding allocate allocate_block
allocate_lem size p out h v = elim (Option-cases p.head) [
  | inr (node, e) ↦
      let (valid, fresh) = pop_node size p out node v e in
      (node, record p { head = p.next node }, rw e, fresh, valid)
  | inl e ↦
      let p1 = allocate_block size p in
      let (valid, fresh) =
        pop_node size p1 out (p.blocks * size) (allocate_block-IsPool size p out h v) refl in
      (p.blocks * size, record p1 { head = p1.next (p.blocks * size) }, rw e, fresh, valid)
]

-- In a pool in which every node is free or handed out exactly once, after a handed out node is
-- given back, it is no longer handed out and every node is free or handed out exactly once.
pub deallocate-IsPool :
    (size : ℕ) (p : Pool) (out : List ℕ) (node : ℕ)
    → IsPool size p out
    → 0 < count node out
    → IsPool size (deallocate node p) (erase node out)
unfolding deallocate
deallocate-IsPool size p out node v h = record {
  free = node ∷ v.free;
  linked = (
    refl,
    subst (λ (m : Option ℕ). IsLinked (set_next node p.head p.next) m v.free) (ground arith)
        (IsLinked-frame p.next (set_next node p.head p.next) p.head v.free
          (All-count v.free (λ n in_free. ground (arith, v.each n))) v.linked),
  );
  each = λ n. ground (arith, v.each n, count-erase node n out);
}

-- A new pool of blocks of positive size has handed out nothing, and every node of its block is
-- free exactly once.
pub make_pool-IsPool : (size : ℕ) → 0 < size → IsPool size (make_pool size) []
unfolding make_pool
make_pool-IsPool size h =
    allocate_block-IsPool size (record { head = none; next = λ n. none; blocks = 0 }) [] h
      (record { free = []; linked = refl; each = λ n. ground arith })
