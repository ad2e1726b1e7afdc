-- ===== src/Store/Obligations.antt =====
-- store/src/lib.rs: the senders that wait for a key. RocksDB answers what was put last.
use tusk_ubuntu.Prelude.{
  ℕ, ◌≡◌, refl, sym, inl, inr, Bool, true, false, Option, none, some, List, [], ◌∷◌, ◌++◌, ◌==◌,
  if◌then◌else◌, Bool-cases, Option-cases, arith, In, here, In-append_left, In-append_right, In-map,
  All, ==→eq,
}
use tusk_ubuntu.Prelude.Map
use tusk_ubuntu.Prelude.Result.{Result, ok, err}
use tusk_ubuntu.Store.{
  Key, Value, StoreError, Database, StoreCommand, write, read, notify_read, notify_reply, Store,
  wake, wait_or_reply, handle, handle_all,
}

-- The command writes the key.
abbrev pub writes : Key → StoreCommand → Bool
writes k (write j _) = j == k
writes k (read _ _) = false
writes k (notify_read _ _) = false

abbrev pub waiting : {D : Type 0} → Key → Store D → List ℕ
waiting k s = Map.entry_or k [] s.obligations

==_sym : (k j : ℕ) → (j == k) ≡ false → (k == j) ≡ false
==_sym k j h = ground arith

==_sym_true : (k j : ℕ) → (j == k) ≡ true → (k == j) ≡ true
==_sym_true k j h = ground arith

module _ {D : Type 0} (ops : Database D) where
  wait-In :
      (k j : Key) (n m : ℕ) (s : Store D) (r : Result StoreError (Option Value))
      → In n (waiting k s)
      → In n (waiting k (wait_or_reply ops j m s r).0)
  unfolding wait_or_reply
  wait-In k j n m s (ok none) i =
      rw (Map.entry_or-insert_at j k [] (Map.entry_or j [] s.obligations ++ m ∷ []) s.obligations)
        (elim (Bool-cases (j == k)) [
          | inl q ↦
              let e : j ≡ k = ==→eq j k q in rw q (rw e (In-append_left (waiting k s) (m ∷ []) i))
          | inr q ↦ rw q i
        ])
  wait-In k j n m s (ok (some v)) i = i
  wait-In k j n m s (err e) i = i

  wake-In :
      (k : Key) (n : ℕ) (s : Store D) (v : Value)
      → In n (waiting k s)
      → In (n, notify_reply (ok v)) (wake ops v (Map.get k s.obligations))
  unfolding wake Map.entry_or
  wake-In k n s v i = elim (Option-cases (Map.get k s.obligations)) [
    | inl q ↦ let j : In n [] = rw (q, Map.entry_or) at i in elim j [ ]
    | inr (ns, q) ↦ let j : In n ns = rw (q, Map.entry_or) at i in rw q (In-map _ ns j)
  ]

  handle-In :
      (k : Key) (n : ℕ) (c : StoreCommand) (s : Store D)
      → writes k c ≡ false
      → In n (waiting k s)
      → In n (waiting k (handle ops s c).0)
  unfolding handle
  handle-In k n (write j v) s w i = rw (Map.entry_or-remove j k [] s.obligations, ==_sym k j w) i
  handle-In k n (read j m) s w i = i
  handle-In k n (notify_read j m) s w i = wait-In k j n m s (ops.get s.db j) i

  handle_all-In :
      (k : Key) (n : ℕ) (cs : List StoreCommand) (s : Store D) (v : Value)
      → All (λ c. writes k c ≡ false) cs
      → In n (waiting k s)
      → In (n, notify_reply (ok v)) (handle_all ops s (cs ++ write k v ∷ [])).1
  unfolding handle_all handle
  handle_all-In k n [] s v a i = In-append_left _ [] (wake-In k n s v i)
  handle_all-In k n (c ∷ cs) s v a i =
      In-append_right (handle ops s c).1 _
        (handle_all-In k n cs (handle ops s c).0 v a.1 (handle-In k n c s a.0 i))

  waits : (k : Key) (n : ℕ) (s : Store D) → In n (waiting k (wait_or_reply ops k n s (ok none)).0)
  unfolding wait_or_reply
  waits k n s =
      rw (Map.entry_or-insert k [] (waiting k s ++ n ∷ []) s.obligations)
        (In-append_right (waiting k s) (n ∷ []) (here refl))

  -- A `notify_read` of a key that the store does not hold is answered with the value that the next write
  -- of the key puts, whatever the store handles in between.
  pub notify_read-answered :
      (k : Key) (n : ℕ) (cs : List StoreCommand) (v : Value) (s : Store D)
      → ops.get s.db k ≡ ok none
      → All (λ c. writes k c ≡ false) cs
      → In (n, notify_reply (ok v)) (handle_all ops s (notify_read k n ∷ cs ++ write k v ∷ [])).1
  unfolding handle_all handle
  notify_read-answered k n cs v s absent others =
      rw absent (handle_all-In k n cs _ v others (waits k n s))

  -- No sender waits for a key that the database holds.
  abbrev pub IsPrompt : Store D → Type 0
  IsPrompt s = (k : Key) (n : ℕ) → In n (waiting k s) → ops.get s.db k ≡ ok none

  module _
      (get-put : (d : D) (k j : Key) (v : Value)
        → ops.get (ops.put d k v) j ≡ (if k == j then ok (some v) else ops.get d j)) where
    wait-IsPrompt :
        (j : Key) (m : ℕ) (s : Store D) (r : Result StoreError (Option Value))
        → r ≡ ops.get s.db j
        → IsPrompt s
        → IsPrompt (wait_or_reply ops j m s r).0
    unfolding wait_or_reply
    wait-IsPrompt j m s (ok none) e p k n i = elim (Bool-cases (j == k)) [
      | inl q ↦ rw (← ==→eq j k q) (sym e)
      | inr q ↦
          p k n (rw (Map.entry_or-insert_at j k [] (waiting j s ++ m ∷ []) s.obligations, q) at i)
    ]
    wait-IsPrompt j m s (ok (some v)) e p k n i = p k n i
    wait-IsPrompt j m s (err x) e p k n i = p k n i

    handle-IsPrompt : (c : StoreCommand) (s : Store D) → IsPrompt s → IsPrompt (handle ops s c).0
    unfolding handle
    handle-IsPrompt (write j v) s p k n i = rw (get-put s.db j k v) (elim (Bool-cases (j == k)) [
      | inl q ↦
          let none_waits : In n [] =
            rw (Map.entry_or-remove j k [] s.obligations, ==_sym_true k j q) at i in
          elim none_waits [ ]
      | inr q ↦ rw q (p k n (rw (Map.entry_or-remove j k [] s.obligations, ==_sym k j q) at i))
    ])
    handle-IsPrompt (read j m) s p k n i = p k n i
    handle-IsPrompt (notify_read j m) s p k n i = wait-IsPrompt j m s (ops.get s.db j) refl p k n i

    -- If the database answers what was put last, then from a store where no sender waits for a key that the
    -- database holds, such as a new one, every sequence of commands leads to such a store again.
    pub handle_all-IsPrompt :
        (cs : List StoreCommand) (s : Store D) → IsPrompt s → IsPrompt (handle_all ops s cs).0
    unfolding handle_all
    handle_all-IsPrompt [] s p = p
    handle_all-IsPrompt (c ∷ cs) s p =
        handle_all-IsPrompt cs (handle ops s c).0 (handle-IsPrompt c s p)
