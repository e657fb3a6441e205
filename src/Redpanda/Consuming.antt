-- ===== src/Redpanda/Consuming.antt =====
-- server/src/adapters/redpanda.rs: which offsets `consumer_loop` commits.
use tic_tac_tussle.Base.{
  Bool, ℕ, ◌≡◌, refl, true, false, some, none, ◌⊎◌, inl, inr, List, [], ◌∷◌, ◌++◌, Memᴰ, Bytes,
  Option, if◌then◌else◌,
}
use mathlib.Core.List.Memᴰ.{cases_cons, not-nil}
use tic_tac_tussle.Commands.{CommandEnvelope}
use tic_tac_tussle.Redpanda.{
  decode_command, Reply, acknowledged, dropped, timed_out, Received, message, failure, Consumer,
  forward, consume, consumer_loop,
}

append-cases : {a b : ℕ} (l : List ℕ) → Memᴰ a (l ++ b ∷ []) → Memᴰ a l ⊎ (a ≡ b)
append-cases [] m = elim (cases_cons m) [ inl e ↦ inr e | inr n ↦ absurd (not-nil n) ]
append-cases (x ∷ l) m = elim (cases_cons m) [
  | inl e ↦ inl (Memᴰ.head e)
  | inr n ↦ elim (append-cases l n) [ inl k ↦ inl (Memᴰ.tail k) | inr e ↦ inr e ]
]

module _ (from_slice : Bytes → Option CommandEnvelope) where
  -- The message of this offset held a command, was handed on, and was acknowledged.
  abbrev pub Confirmed : ℕ → List Received → Type 0
  Confirmed offset l =
      (payload : Bytes) × (cmd : CommandEnvelope) × Memᴰ
        (message offset (some payload) true acknowledged) l
      × (decode_command from_slice payload ≡ some cmd)

  forward_cases :
      (n offset : ℕ) (payload : Bytes) (cmd : CommandEnvelope) (is_open : Bool) (reply : Reply)
      (c : Consumer) (rest : List Received)
      → decode_command from_slice payload ≡ some cmd
      → Memᴰ n (forward offset cmd is_open reply c).committed
      → Memᴰ n c.committed ⊎ Confirmed n (message offset (some payload) is_open reply ∷ rest)
  forward_cases n offset payload cmd false reply c rest d m = inl m
  forward_cases n offset payload cmd true acknowledged c rest d m =
      elim (append-cases c.committed m) [
        | inl k ↦ inl k
        | inr e ↦ inr (payload, cmd, Memᴰ.head (rw e refl), d)
      ]
  forward_cases n offset payload cmd true dropped c rest d m = inl m
  forward_cases n offset payload cmd true timed_out c rest d m = inl m

  pub consume_cases :
      (n : ℕ) (r : Received) (c : Consumer) (rest : List Received)
      → Memᴰ n (consume from_slice r c).committed
      → Memᴰ n c.committed ⊎ Confirmed n (r ∷ rest)
  unfolding consume
  consume_cases n failure c rest m = inl m
  consume_cases n (message offset none is_open reply) c rest m = inl m
  consume_cases n (message offset (some payload) is_open reply) c rest m =
      go (decode_command from_slice payload) refl m
    where
      next : Option CommandEnvelope → Consumer
      next o = elim o [ some cmd ↦ forward offset cmd is_open reply c | none ↦ c ]

      go :
          (o : Option CommandEnvelope)
          → decode_command from_slice payload ≡ o
          → Memᴰ n (next o).committed
          → Memᴰ n c.committed ⊎ Confirmed n (message offset (some payload) is_open reply ∷ rest)
      go (some cmd) d k = forward_cases n offset payload cmd is_open reply c rest d k
      go none d k = inl k

  -- An offset that the loop commits was committed before, or it is that of a message that held a
  -- command, was handed on, and was acknowledged by the game loop.
  pub consumer_loop_lem :
      (l : List Received) (c : Consumer) (n : ℕ)
      → Memᴰ n (consumer_loop from_slice l c).committed
      → Memᴰ n c.committed ⊎ Confirmed n l
  unfolding consumer_loop
  consumer_loop_lem [] c n m = inl m
  consumer_loop_lem (r ∷ l) c n m =
      go (consume from_slice r c).running (consumer_loop_lem l (consume from_slice r c) n) m
    where
      go :
          (b : Bool)
          → (Memᴰ n (consumer_loop from_slice l (consume from_slice r c)).committed
              → Memᴰ n (consume from_slice r c).committed ⊎ Confirmed n l)
          → Memᴰ n
              (if b
                then consumer_loop from_slice l (consume from_slice r c)
                else consume from_slice r c).committed
          → Memᴰ n c.committed ⊎ Confirmed n (r ∷ l)
      go false ih k = consume_cases n r c l k
      go true ih k = elim (ih k) [
        | inl j ↦ consume_cases n r c l j
        | inr (payload, cmd, j, d) ↦ inr (payload, cmd, Memᴰ.tail j, d)
      ]
