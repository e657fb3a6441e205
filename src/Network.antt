-- ===== src/Network.antt =====
-- server/src/adapters/renet.rs: `RenetBroadcaster`. The crates bincode and renet are parameters,
-- with the laws that the program relies on.
pub mod Sending
pub mod Mirror
pub mod Rounds
pub mod Sessions
pub mod Overlap
use tic_tac_tussle.Base.{
  ℕ, ◌≡◌, ◌≢◌, Bool, true, Option, some, List, [], ◌∷◌, ◌++◌, Bytes, Outcome, ok, err, panic,
}
use tic_tac_tussle.Events.{GameEvent}
use tic_tac_tussle.Ports.{Action, NetworkBroadcaster, Anyhow}
use tic_tac_tussle.Service.{map_err}

-- `bincode`: what is encoded decodes to itself. The error is anyhow's.
pub record Codec (E A : Type 0) : Type 0 where
  pub encode_to_vec : A → Outcome E Bytes
  pub decode_from_slice : Bytes → Option A
  pub round_trip : (a : A) → (b : Bytes) × (encode_to_vec a ≡ ok b) × (decode_from_slice b ≡ some a)

-- `RenetServer`, behind its mutex. The messages on the channel `ReliableOrdered` reach a client
-- that stays connected once each, in the order in which they were sent: `sent` are those messages.
-- A channel that runs full disconnects its client, so the laws are on clients still connected.
pub record Renet (N : Type 0) : Type 0 where
  pub broadcast_message : Bytes → N → N
  pub send_message : ℕ → Bytes → N → N
  pub is_connected : N → ℕ → Bool
  pub sent : N → ℕ → List Bytes
  pub broadcast_message-sent :
      (b : Bytes) (n : N) (c : ℕ)
      → is_connected (broadcast_message b n) c ≡ true
      → (is_connected n c ≡ true) × (sent (broadcast_message b n) c ≡ sent n c ++ b ∷ [])
  pub send_message-sent :
      (b : Bytes) (n : N) (c : ℕ)
      → is_connected (send_message c b n) c ≡ true
      → (is_connected n c ≡ true) × (sent (send_message c b n) c ≡ sent n c ++ b ∷ [])
  pub send_message-other :
      (b : Bytes) (n : N) (c d : ℕ)
      → c ≢ d
      → (is_connected (send_message d b n) c ≡ is_connected n c)
        × (sent (send_message d b n) c ≡ sent n c)

module _ {E N : Type 0} (any : Anyhow E) (codec : Codec E GameEvent) (renet : Renet N) where
  -- An encoded message is handed on, and an encoding error is returned.
  abbrev pub with_bytes : Outcome E Bytes → (Bytes → N → N) → Action E N (Unit {0})
  with_bytes (ok bytes) f n = (ok tt, f bytes n)
  with_bytes (err e) f n = (err e, n)
  with_bytes panic f n = (panic, n)

  -- `RenetBroadcaster::broadcast`
  unfoldable pub renet_broadcast : GameEvent → Action E N (Unit {0})
  renet_broadcast event =
      with_bytes (map_err (any.context "encode broadcast") (codec.encode_to_vec event))
        renet.broadcast_message

  -- `RenetBroadcaster::send_to`
  unfoldable pub renet_send_to : ℕ → GameEvent → Action E N (Unit {0})
  renet_send_to client_id event =
      with_bytes (map_err (any.context "encode send_to") (codec.encode_to_vec event))
        (renet.send_message client_id)

  -- `impl NetworkBroadcaster for RenetBroadcaster`
  abbrev pub renet_broadcaster : NetworkBroadcaster E N
  renet_broadcaster = record { broadcast = renet_broadcast; send_to = renet_send_to }
