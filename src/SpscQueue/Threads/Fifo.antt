-- ===== src/SpscQueue/Threads/Fifo.antt =====
-- In every interleaving the popped items are the first of the pushed ones, in their order.
use mathlib.Core.List.{append_assoc}
use high_performance_trading.Base.{
  ℕ, ◌<◌, ◌≡◌, refl, sym, ap, subst, ◌∙◌, false, some, List, [], ◌∷◌, ◌++◌, ◌==◌, length, head?,
  arith, Bool-cases, inl, inr,
}
use high_performance_trading.SpscQueue.{Queue, store_item, next, make_queue}
use high_performance_trading.SpscQueue.Contents.{Contains, empty_iff, popped-Contains}
use high_performance_trading.SpscQueue.Threads.{
  Producer, at_rest, checked, written, Consumer, resting, found, taken, Threads, Turn, produce,
  consume, begin, step_producer, step_consumer, step, run,
}
use high_performance_trading.SpscQueue.Threads.Knowledge.{
  ProducerKnows, ConsumerKnows, IsFifo, ConsumerKnows-append, ProducerKnows-pop, room_left,
  written-Contains, stored-Contains,
}

module _ {T : Type 0} where
  step_producer-IsFifo :
      (size : ℕ) (item : T) (p : Producer T) (s : Threads T)
      → s.producer ≡ p
      → IsFifo size s
      → IsFifo size (step_producer size item p s)
  unfolding step_producer
  step_producer-IsFifo size item at_rest s e v =
      elim (Bool-cases (next size s.queue.tail == s.queue.head)) [
        | inl full ↦ rw full v
        | inr open_slot ↦ rw open_slot (record {
          waiting = v.waiting;
          contains = v.contains;
          order = v.order;
          producer_knows = (refl, refl, room_left size s.queue v.waiting v.contains open_slot);
          consumer_knows = v.consumer_knows;
        })
      ]
  step_producer-IsFifo size item (checked current after own) s e v =
      let q = s.queue in
      let (at, ahead, room) =
        subst (ProducerKnows size q.tail q.buffer v.waiting) e v.producer_knows in
      record {
        waiting = v.waiting;
        contains =
            subst
              (λ (k : ℕ). Contains size (record q { buffer = store_item k own q.buffer }) v.waiting)
              (sym at) (written-Contains size q v.waiting own v.contains);
        order = v.order;
        producer_knows = (ahead, room, ground (arith, at));
        consumer_knows = v.consumer_knows;
      }
  step_producer-IsFifo size item (written after own) s e v =
      let q = s.queue in
      let (ahead, room, kept) =
        subst (ProducerKnows size q.tail q.buffer v.waiting) e v.producer_knows in
      record {
        waiting = v.waiting ++ (own ∷ []);
        contains =
            subst (λ (k : ℕ). Contains size (record q { tail = k }) (v.waiting ++ (own ∷ [])))
              (sym ahead) (stored-Contains size q v.waiting own v.contains room kept);
        order =
            ap (λ (xs : List T). xs ++ (own ∷ [])) v.order
            ∙ append_assoc s.popped v.waiting (own ∷ []);
        producer_knows = tt;
        consumer_knows = ConsumerKnows-append q.head v.waiting own s.consumer v.consumer_knows;
      }

  -- The head moves on, and the first item is gone.
  popped_one :
      (size : ℕ) (own : T) (s : Threads T) (xs : List T)
      → Contains size s.queue xs
      → s.pushed ≡ s.popped ++ xs
      → ProducerKnows size s.queue.tail s.queue.buffer xs s.producer
      → head? xs ≡ some own
      → IsFifo size (step_consumer size (taken s.queue.head own) s)
  unfolding step_consumer
  popped_one size own s [] v order knows e = cc
  popped_one size own s (x ∷ xs) v order knows e = record {
    waiting = xs;
    contains = popped-Contains size s.queue x xs v;
    order =
        order
        ∙ sym (append_assoc s.popped (x ∷ []) xs)
        ∙ ap (λ (y : T). (s.popped ++ (y ∷ [])) ++ xs) (some_injective e);
    producer_knows = ProducerKnows-pop size s.queue.tail s.queue.buffer x xs s.producer knows;
    consumer_knows = tt;
  }
    where
      some_injective : {a b : T} → some a ≡ some b → a ≡ b
      some_injective h = cc

  some_waiting :
      (size : ℕ) (q : Queue T) (xs : List T)
      → Contains size q xs
      → (q.head == q.tail) ≡ false
      → 0 < length xs
  some_waiting size q xs v e = ground (arith, e, empty_iff size q xs v)

  first_waiting :
      (size : ℕ) (q : Queue T) (xs : List T)
      → Contains size q xs
      → 0 < length xs
      → head? xs ≡ some (q.buffer q.head)
  first_waiting size q [] v h = absurd (omega arith)
  first_waiting size q (x ∷ xs) v h = ap some (sym v.holds.0)

  step_consumer-IsFifo :
      (size : ℕ) (c : Consumer T) (s : Threads T)
      → s.consumer ≡ c
      → IsFifo size s
      → IsFifo size (step_consumer size c s)
  unfolding step_consumer
  step_consumer-IsFifo size resting s e v = elim (Bool-cases (s.queue.head == s.queue.tail)) [
    | inl empty ↦ rw empty v
    | inr more ↦ rw more (record {
      waiting = v.waiting;
      contains = v.contains;
      order = v.order;
      producer_knows = v.producer_knows;
      consumer_knows = (refl, some_waiting size s.queue v.waiting v.contains more);
    })
  ]
  step_consumer-IsFifo size (found current) s e v =
      let (at, more) = subst (ConsumerKnows s.queue.head v.waiting) e v.consumer_knows in
      record {
        waiting = v.waiting;
        contains = v.contains;
        order = v.order;
        producer_knows = v.producer_knows;
        consumer_knows = (
          at,
          first_waiting size s.queue v.waiting v.contains more
              ∙ ap (λ (k : ℕ). some (s.queue.buffer k)) (sym at),
        );
      }
  step_consumer-IsFifo size (taken current own) s e v =
      let (at, first) = subst (ConsumerKnows s.queue.head v.waiting) e v.consumer_knows in
      subst (λ (k : ℕ). IsFifo size (step_consumer size (taken k own) s)) (sym at)
        (popped_one size own s v.waiting v.contains v.order v.producer_knows first)

  run-IsFifo :
      (size : ℕ) (turns : List (Turn T)) (s : Threads T)
      → IsFifo size s
      → IsFifo size (run size turns s)
  unfolding run step
  run-IsFifo size [] s v = v
  run-IsFifo size (produce item ∷ turns) s v =
      run-IsFifo size turns _ (step_producer-IsFifo size item s.producer s refl v)
  run-IsFifo size (consume ∷ turns) s v =
      run-IsFifo size turns _ (step_consumer-IsFifo size s.consumer s refl v)

  begin-IsFifo : (size : ℕ) (buffer : ℕ → T) → 0 < size → IsFifo size (begin buffer)
  unfolding begin make_queue
  begin-IsFifo size buffer h = record {
    waiting = [];
    contains = record { bound = h; head_bound = h; tail_at = ground arith; holds = tt };
    order = refl;
    producer_knows = tt;
    consumer_knows = tt;
  }

  -- In every interleaving of a producer and a consumer on a ring of positive size, what has been
  -- popped is the first part of what has been pushed, in order, and fewer items than the ring's
  -- size are in between.
  pub run_pops_in_order :
      (size : ℕ) (buffer : ℕ → T) (turns : List (Turn T))
      → 0 < size
      → (waiting : List T) × ((run size turns (begin buffer)).pushed
          ≡ (run size turns (begin buffer)).popped ++ waiting)
        × (length waiting < size)
  run_pops_in_order size buffer turns h =
      let v = run-IsFifo size turns (begin buffer) (begin-IsFifo size buffer h) in
      (v.waiting, v.order, v.contains.bound)
