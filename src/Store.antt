-- ===== src/Store.antt =====
-- store/src/lib.rs: the store's task, which answers commands one at a time. RocksDB is a parameter; a
-- key is its bytes read as one number behind a leading 1. A sender of a reply is a number, and the
-- handler returns the replies that it sends, in order.
pub mod Obligations
pub mod Keys
use tusk_ubuntu.Prelude.{
  ℕ, ◌+◌, ◌*◌, Option, none, some, List, [], ◌∷◌, ◌++◌, map, be_bytes32, le_bytes,
}
use tusk_ubuntu.Prelude.Map
use tusk_ubuntu.Prelude.Result.{Result, ok, err}
use tusk_ubuntu.Config.{WorkerId}
use tusk_ubuntu.Crypto.{Digest}

abbrev pub Key : Type 0
Key = ℕ

abbrev pub Value : Type 0
Value = List ℕ

pub data StoreError : Type 0 where
  database : StoreError

unfoldable pub bytes_key : ℕ → List ℕ → Key
bytes_key acc [] = acc
bytes_key acc (b ∷ bs) = bytes_key (acc * 256 + b) bs

-- `digest.to_vec()`, and `[digest.as_ref(), &worker_id.to_le_bytes()].concat()`.
unfoldable pub digest_key : Digest → Key
unfolding bytes_key
digest_key d = bytes_key 1 (be_bytes32 d)

unfoldable pub payload_key : Digest → WorkerId → Key
unfolding bytes_key
payload_key d w = bytes_key 1 (be_bytes32 d ++ le_bytes 4 w)

-- What the code calls of RocksDB. It ignores the result of `put`.
pub record Database (D : Type 0) : Type 0 where
  pub get : D → Key → Result StoreError (Option Value)
  pub put : D → Key → Value → D

pub data StoreCommand : Type 0 where
  write : Key → Value → StoreCommand
  read : Key → (sender : ℕ) → StoreCommand
  notify_read : Key → (sender : ℕ) → StoreCommand

pub data Reply : Type 0 where
  read_reply : Result StoreError (Option Value) → Reply
  notify_reply : Result StoreError Value → Reply

pub record Store (D : Type 0) : Type 0 where
  pub db : D
  pub obligations : List (Key × List ℕ)

module _ {D : Type 0} (ops : Database D) where
  -- The senders waiting for the key, which are answered first come first served.
  unfoldable pub wake : Value → Option (List ℕ) → List (ℕ × Reply)
  wake value none = []
  wake value (some senders) = map (λ s. (s, notify_reply (ok value))) senders

  unfoldable pub wait_or_reply :
      Key → ℕ → Store D → Result StoreError (Option Value) → Store D × List (ℕ × Reply)
  wait_or_reply key sender s (ok none) = (
    record s {
      obligations = Map.insert key (Map.entry_or key [] s.obligations ++ sender ∷ []) s.obligations;
    },
    [],
  )
  wait_or_reply key sender s (ok (some value)) = (s, (sender, notify_reply (ok value)) ∷ [])
  wait_or_reply key sender s (err e) = (s, (sender, notify_reply (err e)) ∷ [])

  unfoldable pub handle : Store D → StoreCommand → Store D × List (ℕ × Reply)
  unfolding wake wait_or_reply
  handle s (write key value) = (
    record { db = ops.put s.db key value; obligations = Map.remove key s.obligations },
    wake value (Map.get key s.obligations),
  )
  handle s (read key sender) = (s, (sender, read_reply (ops.get s.db key)) ∷ [])
  handle s (notify_read key sender) = wait_or_reply key sender s (ops.get s.db key)

  unfoldable pub handle_all : Store D → List StoreCommand → Store D × List (ℕ × Reply)
  unfolding handle
  handle_all s [] = (s, [])
  handle_all s (c ∷ cs) =
      let (s', replies) = handle s c in let (s'', rest) = handle_all s' cs in (s'', replies ++ rest)
