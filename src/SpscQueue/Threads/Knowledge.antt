-- ===== src/SpscQueue/Threads/Knowledge.antt =====
-- What the threads of LockFreeQueue know between their steps, and what a step does to the ring.
use high_performance_trading.Base.{
  ℕ, suc, ◌<◌, ◌≡◌, sym, ap, subst, ◌∙◌, false, some, List, [], ◌∷◌, ◌++◌, ◌==◌, length,
  length-append, head?, arith,
}
use high_performance_trading.SpscQueue.{Queue, store_item, next}
use high_performance_trading.SpscQueue.Contents.{
  slot, Holds, Contains, Holds-store_item, Holds-append, full_iff, next_tail,
}
use high_performance_trading.SpscQueue.Threads.{
  Producer, at_rest, checked, written, Consumer, resting, found, taken, Threads,
}

module _ {T : Type 0} where
  -- What a producer between its steps knows of the tail, the buffer and the items.
  abbrev pub ProducerKnows : ℕ → ℕ → (ℕ → T) → List T → Producer T → Type 0
  ProducerKnows size tail buffer xs at_rest = Unit {0}
  ProducerKnows size tail buffer xs (checked current after own) =
      (current ≡ tail) × (after ≡ next size tail) × (suc (length xs) < size)
  ProducerKnows size tail buffer xs (written after own) =
      (after ≡ next size tail) × (suc (length xs) < size) × (buffer tail ≡ own)

  -- What a consumer knows of the head and the items.
  abbrev pub ConsumerKnows : ℕ → List T → Consumer T → Type 0
  ConsumerKnows head xs resting = Unit {0}
  ConsumerKnows head xs (found current) = (current ≡ head) × (0 < length xs)
  ConsumerKnows head xs (taken current own) = (current ≡ head) × (head? xs ≡ some own)

  -- The queue holds what has been pushed and not popped.
  pub record IsFifo (size : ℕ) (s : Threads T) : Type 0 where
    pub waiting : List T
    pub contains : Contains size s.queue waiting
    pub order : s.pushed ≡ s.popped ++ waiting
    pub producer_knows : ProducerKnows size s.queue.tail s.queue.buffer waiting s.producer
    pub consumer_knows : ConsumerKnows s.queue.head waiting s.consumer

  -- A push behind the items leaves true what the consumer knows, and a pop what the producer does.
  pub ConsumerKnows-append :
      (head : ℕ) (xs : List T) (own : T) (c : Consumer T)
      → ConsumerKnows head xs c
      → ConsumerKnows head (xs ++ (own ∷ [])) c
  ConsumerKnows-append head xs own resting k = tt
  ConsumerKnows-append head xs own (found current) k =
      (k.0, omega (arith, length-append xs (own ∷ [])))
  ConsumerKnows-append head [] own (taken current x) k = cc
  ConsumerKnows-append head (y ∷ xs) own (taken current x) k = k

  pub ProducerKnows-pop :
      (size tail : ℕ) (buffer : ℕ → T) (x : T) (xs : List T) (p : Producer T)
      → ProducerKnows size tail buffer (x ∷ xs) p
      → ProducerKnows size tail buffer xs p
  ProducerKnows-pop size tail buffer x xs at_rest k = tt
  ProducerKnows-pop size tail buffer x xs (checked current after own) (at, ahead, room) =
      (at, ahead, omega (arith, room))
  ProducerKnows-pop size tail buffer x xs (written after own) (ahead, room, kept) =
      (ahead, omega (arith, room), kept)

  pub room_left :
      (size : ℕ) (q : Queue T) (xs : List T)
      → Contains size q xs
      → (next size q.tail == q.head) ≡ false
      → suc (length xs) < size
  room_left size q xs v e = ground (arith, e, full_iff size q xs v, v.bound)

  -- The buffer is written behind the items.
  pub written-Contains :
      (size : ℕ) (q : Queue T) (xs : List T) (own : T)
      → Contains size q xs
      → Contains size (record q { buffer = store_item q.tail own q.buffer }) xs
  written-Contains size q xs own v = record {
    bound = v.bound;
    head_bound = v.head_bound;
    tail_at = v.tail_at;
    holds =
        subst (λ (k : ℕ). Holds size (store_item k own q.buffer) q.head xs) (sym v.tail_at)
          (Holds-store_item size q.buffer q.head own xs v.head_bound v.bound v.holds);
  }

  -- The tail moves behind what was written.
  pub stored-Contains :
      (size : ℕ) (q : Queue T) (xs : List T) (own : T)
      → Contains size q xs
      → suc (length xs) < size
      → q.buffer q.tail ≡ own
      → Contains size (record q { tail = next size q.tail }) (xs ++ (own ∷ []))
  stored-Contains size q xs own v room is = record {
    bound = omega (arith, length-append xs (own ∷ []));
    head_bound = v.head_bound;
    tail_at =
        next_tail size q xs v room
        ∙ ap (slot size q.head) (omega (arith, length-append xs (own ∷ [])));
    holds =
        Holds-append size q.buffer q.head own xs v.head_bound v.bound v.holds
          (subst (λ (k : ℕ). q.buffer k ≡ own) v.tail_at is);
  }
