-- ===== src/Worker/BatchMaker/Batches.antt =====
-- worker/src/batch_maker.rs: the transactions received, and the batches that hold them.
use mathlib.Core.List.{append-nil, append_assoc, map-append}
use tusk_ubuntu.Prelude.{
  ◌<◌, ◌≡◌, ◌∙◌, ap, sym, refl, inl, inr, Bool, true, false, not, ◌&&◌, &&_parts, Option, none,
  some, List, [], ◌∷◌, ◌++◌, map, length, leb, ◌==◌, if◌then◌else◌, Bool-cases, u64_add, arith,
}
use tusk_ubuntu.Worker.BatchMaker.{
  Transaction, Batch, QuorumWaiterMessage, Setup, BatchMaker, Event, changed, transaction, timer,
  push, seal, turn, run, new_batch_maker,
}

-- The transactions among the events, in order.
abbrev pub transactions : List Event → List Transaction
transactions [] = []
transactions (changed _ ∷ es) = transactions es
transactions (transaction tx ∷ es) = tx ∷ transactions es
transactions (timer ∷ es) = transactions es

transactions-cons :
    (e : Event) (es : List Event) → transactions (e ∷ es) ≡ transactions (e ∷ []) ++ transactions es
transactions-cons (changed b) es = refl
transactions-cons (transaction tx) es = refl
transactions-cons timer es = refl

-- A silent batch maker waits for a change.
abbrev pub accepts : Bool → List Event → Bool
accepts silent [] = true
accepts silent (changed b ∷ es) = accepts b es
accepts silent (transaction tx ∷ es) = not silent && accepts silent es
accepts silent (timer ∷ es) = not silent && accepts silent es

abbrev pub concat : List Batch → List Transaction
concat [] = []
concat (b ∷ bs) = b ++ concat bs

concat-snoc : (bs : List Batch) (b : Batch) → concat (bs ++ b ∷ []) ≡ concat bs ++ b
concat-snoc [] b = append-nil b
concat-snoc (x ∷ bs) b = rw (concat-snoc bs b) (sym (append_assoc x (concat bs) b))

module _ (setup : Setup) where
  abbrev pub message : Batch → QuorumWaiterMessage
  message b = record { batch = setup.encode_batch b; handlers = setup.workers_addresses }

  -- The messages are those of some batches, which hold with the current batch exactly the given
  -- transactions, in order; the current batch is below the batch size.
  pub record Holds (txs : List Transaction) (s : BatchMaker) : Type 0 where
    pub batches : List Batch
    pub messages_of : s.messages ≡ map (λ b. message b) batches
    pub kept : concat batches ++ s.current_batch ≡ txs
    pub below : s.current_batch_size < setup.batch_size

  seal-Holds :
      (txs : List Transaction) (s : BatchMaker) (bs : List Batch)
      → s.messages ≡ map (λ b. message b) bs
      → concat bs ++ s.current_batch ≡ txs
      → 0 < setup.batch_size
      → Holds txs (seal setup s)
  unfolding seal
  seal-Holds txs s bs e k pos = record {
    batches = bs ++ s.current_batch ∷ [];
    messages_of = rw e (sym (map-append (λ b. message b) bs (s.current_batch ∷ [])));
    kept = append-nil (concat (bs ++ s.current_batch ∷ [])) ∙ concat-snoc bs s.current_batch ∙ k;
    below = pos;
  }

  -- The turn took the event, and left the batches so.
  abbrev IfTaken : List Transaction → Option BatchMaker → Type 0
  IfTaken txs none = Unit
  IfTaken txs (some s) = Holds txs s

  if-IfTaken :
      (b : Bool) (txs : List Transaction) (x y : Option BatchMaker)
      → (b ≡ true → IfTaken txs x)
      → (b ≡ false → IfTaken txs y)
      → IfTaken txs (if b then x else y)
  if-IfTaken true txs x y f g = f refl
  if-IfTaken false txs x y f g = g refl

  turn-IfTaken :
      (e : Event) (txs : List Transaction) (s : BatchMaker)
      → 0 < setup.batch_size
      → Holds txs s
      → IfTaken (txs ++ transactions (e ∷ [])) (turn setup e s)
  unfolding turn
  turn-IfTaken (changed b) txs s pos v = record {
    batches = v.batches;
    messages_of = v.messages_of;
    kept = v.kept ∙ sym (append-nil txs);
    below = v.below;
  }
  turn-IfTaken (transaction tx) txs s pos v =
      let kept : concat v.batches ++ (s.current_batch ++ tx ∷ []) ≡ txs ++ tx ∷ [] =
        sym (append_assoc (concat v.batches) s.current_batch (tx ∷ []))
        ∙ ap (λ ys. ys ++ tx ∷ []) v.kept in
      if-IfTaken s.silent _ _ _ (λ _. tt)
        λ _.
          if-IfTaken (leb setup.batch_size (u64_add s.current_batch_size (length tx))) _ _ _
            (λ q. seal-Holds _ (push setup tx s) v.batches v.messages_of kept pos)
            λ q. record {
              batches = v.batches;
              messages_of = v.messages_of;
              kept = kept;
              below = ground (arith, q);
            }
  turn-IfTaken timer txs s pos v =
      if-IfTaken s.silent _ _ _ (λ _. tt)
        λ _.
          if-IfTaken (length s.current_batch == 0) _ _ _ (λ q. rw (append-nil txs) v)
            λ q. seal-Holds _ s v.batches v.messages_of (v.kept ∙ sym (append-nil txs)) pos

  turn-taken :
      (e : Event) (s : BatchMaker) (es : List Event)
      → accepts s.silent (e ∷ es) ≡ true
      → (t : BatchMaker) × (turn setup e s ≡ some t) × (accepts t.silent es ≡ true)
  unfolding turn seal
  turn-taken (changed b) s es h = (record s { silent = b }, refl, h)
  turn-taken (transaction tx) s es h =
      let (q, r) = &&_parts (not s.silent) (accepts s.silent es) h in
      elim (Bool-cases (leb setup.batch_size (u64_add s.current_batch_size (length tx)))) [
        | inl k ↦ (seal setup (push setup tx s), ground (arith, q, k), r)
        | inr k ↦ (push setup tx s, ground (arith, q, k), r)
      ]
  turn-taken timer s es h =
      let (q, r) = &&_parts (not s.silent) (accepts s.silent es) h in
      elim (Bool-cases (length s.current_batch == 0)) [
        | inl k ↦ (s, ground (arith, q, k), r)
        | inr k ↦ (seal setup s, ground (arith, q, k), r)
      ]

  run-Holds :
      (es : List Event) (txs : List Transaction) (s : BatchMaker)
      → 0 < setup.batch_size
      → Holds txs s
      → accepts s.silent es ≡ true
      → (t : BatchMaker) × (run setup es s ≡ some t) × Holds (txs ++ transactions es) t
  unfolding run
  run-Holds [] txs s pos v h = (s, refl, rw (append-nil txs) v)
  run-Holds (e ∷ es) txs s pos v h =
      let (u, q, a) = turn-taken e s es h in
      let w : Holds (txs ++ transactions (e ∷ [])) u = rw q at (turn-IfTaken e txs s pos v) in
      let (t, r, z) = run-Holds es (txs ++ transactions (e ∷ [])) u pos w a in
      let assoc : (txs ++ transactions (e ∷ [])) ++ transactions es ≡ txs ++ transactions (e ∷ es) =
        append_assoc txs (transactions (e ∷ [])) (transactions es)
        ∙ ap (λ ys. txs ++ ys) (sym (transactions-cons e es)) in
      (t, rw (run, q) r, rw assoc at z)

  -- A batch maker with a positive batch size, new and silent or not, takes every sequence of events that
  -- has no transaction and no timer while it is silent. By the end, the messages that it sent to the
  -- quorum waiter are those of some batches, and these batches with the current one hold exactly the
  -- transactions received, each once and in order. The current batch is below the batch size.
  pub run-batches :
      (es : List Event) (silent : Bool)
      → 0 < setup.batch_size
      → accepts silent es ≡ true
      → (t : BatchMaker) × (run setup es (new_batch_maker silent) ≡ some t)
        × Holds (transactions es) t
  run-batches es silent pos h =
      run-Holds es [] (new_batch_maker silent) pos
        (record { batches = []; messages_of = refl; kept = refl; below = pos }) h
