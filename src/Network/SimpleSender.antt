-- ===== src/Network/SimpleSender.antt =====
-- network/src/simple_sender.rs: `SimpleSender`, which sends once, and its connection tasks. The task of a
-- channel may have ended, and with it the channel: whether a channel takes a message is an input, as is
-- what the socket gives. A channel is the list of the messages put into it.
use tusk_ubuntu.Prelude.{ℕ, Bool, true, false, none, some, List, [], ◌∷◌, ◌++◌, take, if◌then◌else◌}
use tusk_ubuntu.Prelude.Map
use tusk_ubuntu.Config.{SocketAddr}
use tusk_ubuntu.Network.Connection.{Bytes}

pub record SimpleSender : Type 0 where
  pub connections : List (SocketAddr × List Bytes)

-- A new connection, kept if its channel takes the message.
abbrev pub connect : Bool → SocketAddr → Bytes → SimpleSender → SimpleSender
connect fresh address bytes s =
    if fresh then record { connections = Map.insert address (bytes ∷ []) s.connections } else s

-- Whether the channel on record and a new one take messages, for one address.
pub record Channels : Type 0 where
  pub takes : SocketAddr → Bool
  pub fresh : SocketAddr → Bool

module _ (channels : Channels) where
  unfoldable pub send : SocketAddr → Bytes → SimpleSender → SimpleSender
  unfolding Map.get Map.insert
  send address bytes s = elim (Map.get address s.connections) [
    | none ↦ connect (channels.fresh address) address bytes s
    | some queue ↦
        if channels.takes address
        then record { connections = Map.insert address (queue ++ bytes ∷ []) s.connections }
        else connect (channels.fresh address) address bytes s
  ]

  unfoldable pub broadcast : List SocketAddr → Bytes → SimpleSender → SimpleSender
  unfolding send
  broadcast [] bytes s = s
  broadcast (address ∷ addresses) bytes s = broadcast addresses bytes (send address bytes s)

  unfoldable pub lucky_broadcast :
      (List SocketAddr → List SocketAddr)
      → List SocketAddr
      → Bytes
      → ℕ
      → SimpleSender
      → SimpleSender
  unfolding broadcast
  lucky_broadcast shuffle addresses bytes nodes s =
      broadcast (take nodes (shuffle addresses)) bytes s

-- What the task of a connection waits for, once it is connected: a message from its channel, with
-- whether the write succeeds, or a reply, `false` if the peer or the read failed.
pub data Event : Type 0 where
  message : Bytes → (written : Bool) → Event
  response : Bool → Event

-- The messages that the task writes before it ends.
unfoldable pub transmit : List Event → List Bytes
transmit [] = []
transmit (message bytes true ∷ es) = bytes ∷ transmit es
transmit (message bytes false ∷ es) = []
transmit (response true ∷ es) = transmit es
transmit (response false ∷ es) = []

-- The whole task: nothing is sent if the peer cannot be reached.
unfoldable pub run : (connects : Bool) → List Event → List Bytes
unfolding transmit
run true es = transmit es
run false es = []
