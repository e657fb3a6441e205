-- ===== src/Network/Sending.antt =====
-- server/src/adapters/renet.rs: what one message adds to what a client has been sent.
use tic_tac_tussle.Base.{
  ℕ, ◌≡◌, ◌≢◌, refl, sym, ap, ◌∙◌, true, some, List, [], ◌∷◌, ◌++◌, map, map-append, Bytes, ok,
}
use tic_tac_tussle.Events.{GameEvent}
use tic_tac_tussle.Ports.{Anyhow}
use tic_tac_tussle.Network.{Codec, Renet, renet_broadcast, renet_send_to}

module _ {E N : Type 0} (any : Anyhow E) (codec : Codec E GameEvent) (renet : Renet N) where
  -- A client that is still connected has been sent these events.
  abbrev pub HasSent : N → ℕ → List GameEvent → Type 0
  HasSent n c evs =
      renet.is_connected n c ≡ true → map codec.decode_from_slice (renet.sent n c) ≡ map some evs

  HasSent-more :
      (n m : N) (c : ℕ) (b : Bytes) (e : GameEvent) (old : List GameEvent)
      → (renet.is_connected m c ≡ true
          → (renet.is_connected n c ≡ true) × (renet.sent m c ≡ renet.sent n c ++ b ∷ []))
      → codec.decode_from_slice b ≡ some e
      → HasSent n c old
      → HasSent m c (old ++ e ∷ [])
  HasSent-more n m c b e old law d h = λ on.
      let (before, more) = law on in
      ap (map codec.decode_from_slice) more
      ∙ (map-append codec.decode_from_slice (renet.sent n c) (b ∷ [])
          ∙ rw (h before, d) (sym (map-append some old (e ∷ []))))

  pub renet_broadcast-HasSent :
      (e : GameEvent) (n : N) (c : ℕ) (old : List GameEvent)
      → HasSent n c old
      → ((renet_broadcast any codec renet e n).0 ≡ ok tt)
        × HasSent (renet_broadcast any codec renet e n).1 c (old ++ e ∷ [])
  unfolding renet_broadcast
  renet_broadcast-HasSent e n c old h =
      let (b, run, back) = codec.round_trip e in
      rw run (refl, HasSent-more n _ c b e old (renet.broadcast_message-sent b n c) back h)

  pub renet_send_to-HasSent :
      (e : GameEvent) (n : N) (c : ℕ) (old : List GameEvent)
      → HasSent n c old
      → ((renet_send_to any codec renet c e n).0 ≡ ok tt)
        × HasSent (renet_send_to any codec renet c e n).1 c (old ++ e ∷ [])
  unfolding renet_send_to
  renet_send_to-HasSent e n c old h =
      let (b, run, back) = codec.round_trip e in
      rw run (refl, HasSent-more n _ c b e old (renet.send_message-sent b n c) back h)

  -- What is sent to another client.
  pub renet_send_to-other :
      (e : GameEvent) (n : N) (c d : ℕ) (old : List GameEvent)
      → c ≢ d
      → HasSent n c old
      → ((renet_send_to any codec renet d e n).0 ≡ ok tt)
        × HasSent (renet_send_to any codec renet d e n).1 c old
  unfolding renet_send_to
  renet_send_to-other e n c d old ne h =
      let (b, run, back) = codec.round_trip e in
      let (same, same_sent) = renet.send_message-other b n c d ne in
      rw run (refl, λ on. ap (map codec.decode_from_slice) same_sent ∙ h (sym same ∙ on))
