-- ===== src/Tests/Connections.antt =====
-- The properties of a connection, of its backoff and of base64 keys, at concrete inputs.
use tusk_ubuntu.Prelude.{◌<◌, ◌≡◌, ℕ, refl, true, false, some, List, [], ◌∷◌, filter, All, arith}
use tusk_ubuntu.Network.Connection
use tusk_ubuntu.Network.Connection.{
  Connection, InnerMessage, Phase, connected, failed_to_connect, message, pop, written, response,
  close, spawn, is_open, run,
}
use tusk_ubuntu.Network.Connection.Delivery.{track, received, run-delivers}
use tusk_ubuntu.Prelude.Result.{ok}
use tusk_ubuntu.Prelude.Outcome.{returned}
use tusk_ubuntu.Crypto.Keys.{
  Base64, encode_base64, decode_base64, encode_secret, decode_secret, serialize, deserialize,
  decode_base64-encode_base64,
}

abbrev hello : InnerMessage
hello = record { data_of = 1 ∷ []; cancel_handler = 1 }

abbrev bye : InnerMessage
bye = record { data_of = 2 ∷ []; cancel_handler = 2 }

abbrev again : InnerMessage
again = record { data_of = 3 ∷ []; cancel_handler = 3 }

-- A failed attempt, two messages, a connection that breaks before the second reply, a third message,
-- and a handler that is dropped.
abbrev events : List Connection.Event
events =
    failed_to_connect
    ∷ message hello
    ∷ message bye
    ∷ Connection.Event.timer
    ∷ connected
    ∷ pop
    ∷ written true
    ∷ pop
    ∷ written true
    ∷ pop
    ∷ response (some (9 ∷ []))
    ∷ pop
    ∷ message again
    ∷ pop
    ∷ written false
    ∷ close 3
    ∷ failed_to_connect
    ∷ []

abbrev after_events : Connection
after_events = record {
  phase = Connection.Phase.waiting;
  delay = 200;
  retry = 0;
  buffer = bye ∷ again ∷ [];
  pending_replies = [];
  closed = 3 ∷ [];
  notified = (hello, 9 ∷ []) ∷ [];
}

run-delivers_example :
    filter (is_open after_events.closed) (track after_events.phase after_events)
    ≡ filter (is_open after_events.closed) (received events)
unfolding run
run-delivers_example = run-delivers events refl

-- Base64 that writes the bytes as they are.
abbrev base64 : Base64
base64 = record { encode = λ bytes. bytes; decode = λ text. ok text }

abbrev secret : List ℕ
secret =
    1 ∷ 2 ∷ 3 ∷ 4 ∷ 5 ∷ 6 ∷ 7 ∷ 8 ∷ 1 ∷ 2 ∷ 3 ∷ 4 ∷ 5 ∷ 6 ∷ 7 ∷ 8 ∷ 1 ∷ 2 ∷ 3 ∷ 4 ∷ 5 ∷ 6 ∷ 7 ∷ 8
    ∷ 1 ∷ 2 ∷ 3 ∷ 4 ∷ 5 ∷ 6 ∷ 7 ∷ 8 ∷ 1 ∷ 2 ∷ 3 ∷ 4 ∷ 5 ∷ 6 ∷ 7 ∷ 8 ∷ 1 ∷ 2 ∷ 3 ∷ 4 ∷ 5 ∷ 6 ∷ 7 ∷ 8
    ∷ 1 ∷ 2 ∷ 3 ∷ 4 ∷ 5 ∷ 6 ∷ 7 ∷ 8 ∷ 1 ∷ 2 ∷ 3 ∷ 4 ∷ 5 ∷ 6 ∷ 7 ∷ 8 ∷ []

secret-Byte : All (λ b. b < 256) secret
secret-Byte = ground arith

decode_base64-encode_base64_example :
    (decode_base64 base64 (encode_base64 base64 70_000) ≡ returned (ok 70_000))
    × (decode_secret base64 (encode_secret base64 secret) ≡ returned (ok secret))
    × (deserialize base64 (λ _. []) (serialize base64 70_000) ≡ returned (ok 70_000))
decode_base64-encode_base64_example =
    decode_base64-encode_base64 base64 (λ bytes h. refl) 70_000 (omega arith) secret refl
      secret-Byte (λ _. [])
