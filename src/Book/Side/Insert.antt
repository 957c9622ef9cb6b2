-- ===== src/Book/Side/Insert.antt =====
-- `addToBidSide` and `addToAskSide` on one side of the book.
use high_performance_trading.Base.{
  ◌≡◌, refl, true, false, some, List, [], ◌∷◌, ◌++◌, arith, if◌then◌else◌, All, All-append,
}
use mathlib.Core.List.{append_assoc}
use high_performance_trading.Base.Int.{eqb_ℤ_refl}
use high_performance_trading.Base.Word.{add64}
use high_performance_trading.Base.SortedMap
use high_performance_trading.Base.SortedMap.{KeyOrder, Behind, IsOrdered}
use high_performance_trading.Core.Types.{Price, Symbol, Side}
use high_performance_trading.Store.{Ref, Store, Terms, terms, remaining}
use high_performance_trading.PriceLevel
use high_performance_trading.PriceLevel.{
  PriceLevel, make_level, is_empty, is_empty_list, remove_order,
}
use high_performance_trading.Book.{Levels, add_to_side}
use high_performance_trading.Book.Side.{queue, Belongs, AreLevels, IsSide, enqueue}

module _ (o : KeyOrder Price) (s : Store) (r : Ref) where
  -- `add_to_side` in one pass.
  unfoldable pub insert_level : Levels → Levels
  insert_level [] =
      (
        (s.cell r).price,
        record {
          price = (s.cell r).price;
          total_quantity = add64 0 (remaining s r);
          orders = r ∷ [];
        },
      )
      ∷ []
  insert_level ((j, level) ∷ m) =
      if o.before j (s.cell r).price
      then (j, level) ∷ insert_level m
      else if o.before (s.cell r).price j
      then (
        (s.cell r).price,
        record {
          price = (s.cell r).price;
          total_quantity = add64 0 (remaining s r);
          orders = r ∷ [];
        },
      )
        ∷ (j, level)
        ∷ m
      else (
        j,
        record level {
          total_quantity = add64 level.total_quantity (remaining s r);
          orders = level.orders ++ (r ∷ []);
        },
      )
        ∷ m

  add_to_side-insert_level :
      (t : Ref → Terms) (next : Ref) (side : Side) (symbol : Symbol) (m : Levels)
      → AreLevels t next side symbol m
      → add_to_side o s r m ≡ some (insert_level m)
  unfolding add_to_side insert_level SortedMap.find SortedMap.emplace SortedMap.put
      PriceLevel.add_order
  add_to_side-insert_level t next side symbol [] v =
      rw (o.before_irrefl (s.cell r).price, eqb_ℤ_refl (s.cell r).price)
  add_to_side-insert_level t next side symbol ((j, level) ∷ m) v = ground (
    arith,
    add_to_side-insert_level t next side symbol m v.3,
    o.before_irrefl (s.cell r).price,
    eqb_ℤ_refl (s.cell r).price,
    o.before_connected j (s.cell r).price,
  )

  insert_level-Behind :
      (k : Price) (m : Levels)
      → o.before k (s.cell r).price ≡ true
      → Behind o k m
      → Behind o k (insert_level m)
  unfolding insert_level
  insert_level-Behind k [] h b = (h, tt)
  insert_level-Behind k ((j, level) ∷ m) h b = ground (arith, insert_level-Behind k m h b.1)

  insert_level-IsOrdered : (m : Levels) → IsOrdered o m → IsOrdered o (insert_level m)
  unfolding insert_level
  insert_level-IsOrdered [] v = (tt, tt)
  insert_level-IsOrdered ((j, level) ∷ m) v = ground (
    arith,
    insert_level-Behind j m,
    insert_level-IsOrdered m v.1,
    SortedMap.Behind-trans o (s.cell r).price j m,
  )

  is_empty-push : (xs : List Ref) → is_empty_list (xs ++ (r ∷ [])) ≡ false
  is_empty-push [] = refl
  is_empty-push (x ∷ xs) = refl

  module _ (t : Ref → Terms) (next : Ref) (side : Side) (symbol : Symbol) where
    insert_level-AreLevels :
        (m : Levels)
        → Belongs t next side symbol (s.cell r).price r
        → AreLevels t next side symbol m
        → AreLevels t next side symbol (insert_level m)
    unfolding insert_level
    insert_level-AreLevels [] h v = (refl, refl, (h, tt), tt)
    insert_level-AreLevels ((j, level) ∷ m) h v = ground (
      arith,
      insert_level-AreLevels m h v.3,
      is_empty-push level.orders,
      o.before_connected j (s.cell r).price,
      All-append (Belongs t next side symbol j) level.orders (r ∷ []) v.2,
    )

    enqueue-append :
        (j : Price) (xs ys : List Ref)
        → o.before (t r).price j ≡ false
        → All (Belongs t next side symbol j) xs
        → enqueue o t r (xs ++ ys) ≡ xs ++ enqueue o t r ys
    unfolding enqueue
    enqueue-append j [] ys h v = refl
    enqueue-append j (x ∷ xs) ys h v = ground (arith, enqueue-append j xs ys h v.1)

    enqueue-front :
        (j : Price) (xs ys : List Ref)
        → is_empty_list xs ≡ false
        → o.before (t r).price j ≡ true
        → All (Belongs t next side symbol j) xs
        → enqueue o t r (xs ++ ys) ≡ r ∷ (xs ++ ys)
    unfolding enqueue
    enqueue-front j [] ys e h v = cc
    enqueue-front j (x ∷ xs) ys e h v = ground arith

    -- Where every level is worse, the order goes to the front.
    enqueue-Behind :
        (m : Levels)
        → Behind o (t r).price m
        → AreLevels t next side symbol m
        → enqueue o t r (queue m) ≡ r ∷ queue m
    unfolding enqueue queue
    enqueue-Behind [] b v = refl
    enqueue-Behind ((j, level) ∷ m) b v = enqueue-front j level.orders (queue m) v.1 b.0 v.2

  module _ (next : Ref) (side : Side) (symbol : Symbol) where
    queue-insert_level :
        (m : Levels)
        → IsOrdered o m
        → AreLevels (terms s) next side symbol m
        → queue (insert_level m) ≡ enqueue o (terms s) r (queue m)
    unfolding enqueue queue insert_level
    queue-insert_level [] w v = refl
    queue-insert_level ((j, level) ∷ m) w v = ground (
      arith,
      queue-insert_level m w.1 v.3,
      o.before_irrefl j,
      o.before_trans j (s.cell r).price j,
      o.before_connected j (s.cell r).price,
      enqueue-append (terms s) next side symbol j level.orders (queue m),
      enqueue-Behind (terms s) next side symbol ((j, level) ∷ m),
      enqueue-Behind (terms s) next side symbol m,
      append_assoc level.orders (r ∷ []) (queue m),
    )

    -- On a side of the book, an add never throws, keeps the side's invariant, and puts the order
    -- behind all that have its price or a better one.
    pub add_to_side_lem :
        (m : Levels)
        → IsSide o (terms s) next side symbol m
        → Belongs (terms s) next side symbol (s.cell r).price r
        → (add_to_side o s r m ≡ some (insert_level m))
          × IsSide o (terms s) next side symbol (insert_level m)
          × (queue (insert_level m) ≡ enqueue o (terms s) r (queue m))
    add_to_side_lem m v h = (
      add_to_side-insert_level (terms s) next side symbol m v.levels,
      record {
        ordered = insert_level-IsOrdered m v.ordered;
        levels = insert_level-AreLevels (terms s) next side symbol m h v.levels;
      },
      queue-insert_level m v.ordered v.levels,
    )
