-- ===== src/Events/Transfer.antt =====
-- store/src/events.rs: an envelope as bytes, `to_bytes` and `from_bytes`. The crate bincode is a
-- parameter, with the texts of its two errors.
use Prim.Native.String
use tic_tac_tussle.Base.{◌≡◌, refl, none, some, String, Bytes, Outcome, ok, err}
use tic_tac_tussle.Events.{GameEventEnvelope}
use tic_tac_tussle.Ports.{Anyhow}
use tic_tac_tussle.Service.{map_err}
use tic_tac_tussle.Network.{Codec}

module _ {E B : Type 0} (any : Anyhow E) (codec : Codec B GameEventEnvelope)
    (encode_error : B → String) (decode_error : Bytes → String) where
  -- `GameEventEnvelope::to_bytes`
  unfoldable pub to_bytes : GameEventEnvelope → Outcome E Bytes
  to_bytes envelope =
      map_err (λ e. any.from_text (String.◌++◌ "encode: " (encode_error e)))
        (codec.encode_to_vec envelope)

  -- `GameEventEnvelope::from_bytes`
  unfoldable pub from_bytes : Bytes → Outcome E GameEventEnvelope
  from_bytes bytes = elim (codec.decode_from_slice bytes) [
    | none ↦ err (any.from_text (String.◌++◌ "decode: " (decode_error bytes)))
    | some envelope ↦ ok envelope
  ]

  -- Every envelope is written, and read back whole.
  pub from_bytes-to_bytes :
      (envelope : GameEventEnvelope)
      → (bytes : Bytes) × (to_bytes envelope ≡ ok bytes) × (from_bytes bytes ≡ ok envelope)
  unfolding to_bytes from_bytes
  from_bytes-to_bytes envelope =
      let (bytes, written, read) = codec.round_trip envelope in
      (bytes, rw written refl, rw (from_bytes, read) refl)
