-- ===== src/Tests/Samples.antt =====
-- A committee of four authorities of stake 1, and stand-ins for the libraries: the digest is the sum of
-- the bytes, every signature is accepted, and the database is an association list.
use tusk_ubuntu.Prelude.{
  ℕ, ◌+◌, ◌≡◌, refl, true, some, if◌then◌else◌, ◌==◌, List, [], ◌∷◌, sum, arith,
}
use tusk_ubuntu.Prelude.Map
use tusk_ubuntu.Prelude.Set
use tusk_ubuntu.Prelude.Set.{Distinct}
use tusk_ubuntu.Prelude.Result.{ok}
use tusk_ubuntu.Config.{Authority, Committee, PublicKey, WorkerAddresses}
use tusk_ubuntu.Config.Quorum.{IsValid, weight_in}
use tusk_ubuntu.Crypto.{Primitives, Signature, default_signature}
use tusk_ubuntu.Messages.{Certificate}
use tusk_ubuntu.Store.{Database, Key, Value}

abbrev pub authority : ℕ → Authority
authority address = record {
  stake_of = 1;
  primary_of = record { primary_to_primary = address; worker_to_primary = address + 1 };
  workers =
      (
        0,
        record {
          transactions = address + 2;
          worker_to_worker = address + 3;
          primary_to_worker = address + 4;
        },
      )
      ∷ [];
}

abbrev pub worker_of_20 : WorkerAddresses
worker_of_20 = record { transactions = 22; worker_to_worker = 23; primary_to_worker = 24 }

abbrev pub four : Committee
four = record {
  authorities = (1, authority 10) ∷ (2, authority 20) ∷ (3, authority 30) ∷ (4, authority 40) ∷ [];
}

pub four-IsValid : IsValid four
unfolding Set.contains weight_in
four-IsValid = record { distinct = (refl, (refl, (refl, (refl, tt)))); fits = omega arith }

abbrev pub stub : Primitives
stub = record {
  sha512 = sum;
  signature_from_bytes = λ _. true;
  key_from_bytes = λ _. true;
  verify_strict = λ _ _ _. true;
  dalek_verify_batch = λ _ _. true;
  sign = λ _. default_signature;
}

abbrev pub votes_by : List PublicKey → List (PublicKey × Signature)
votes_by [] = []
votes_by (n ∷ ns) = (n, default_signature) ∷ votes_by ns

-- The certificate of a header that carries its digest under `stub`: the sum of its bytes.
abbrev pub certified : PublicKey → ℕ → List ℕ → Certificate
certified author round parents = record {
  header = record {
    author = author;
    round = round;
    payload = [];
    parents = parents;
    id = author + round + sum parents;
    signature = default_signature;
  };
  votes = votes_by (1 ∷ 2 ∷ 3 ∷ []);
}

-- RocksDB as an association list.
abbrev pub database : Database (List (Key × Value))
database = record { get = λ d k. ok (Map.get k d); put = λ d k v. Map.insert k v d }

pub database-get_put :
    (d : List (Key × Value)) (k j : Key) (v : Value)
    → database.get (database.put d k v) j ≡ (if k == j then ok (some v) else database.get d j)
database-get_put d k j v = rw (Map.get-insert k j v d) (ground arith)
