-- ===== src/Store/Log.antt =====
-- store/src/store.rs: the log only grows, and its sequence numbers are its indices.
use tic_tac_tussle.Base.{
  ℕ, zero, suc, ◌+◌, ◌≡◌, Option, some, List, [], ◌∷◌, ◌++◌, map, length, length-append, get_elem?,
  append-nil, append_assoc, map-append, arith, refl, ap, ◌∙◌, sym,
}
use native.Mathlib.Nat.{zero-add}
use tic_tac_tussle.State.{Uuid, GameId}
use tic_tac_tussle.Commands.{Stamp}
use tic_tac_tussle.Events
use tic_tac_tussle.Events.{GameEvent, GameEventEnvelope}
use tic_tac_tussle.Store.{EventStore, events, append, append_batch}

-- Every envelope names the game, and its sequence number is its index, counted from `n`.
abbrev pub IsSequenced : GameId → ℕ → List GameEventEnvelope → Type 0
IsSequenced g n [] = Unit {0}
IsSequenced g n (e ∷ l) = (e.sequence ≡ n) × (e.game_id ≡ g) × IsSequenced g (suc n) l

-- Every envelope names the command.
abbrev pub From : Option Uuid → List GameEventEnvelope → Type 0
From c [] = Unit {0}
From c (e ∷ l) = (e.command_id ≡ c) × From c l

pub IsSequenced-append :
    (g : GameId) (n : ℕ) (l r : List GameEventEnvelope)
    → IsSequenced g n l
    → IsSequenced g (n + length l) r
    → IsSequenced g n (l ++ r)
IsSequenced-append g n [] r h k = let e : n + 0 ≡ n = omega arith in rw e at k
IsSequenced-append g n (a ∷ l) r h k =
    let e : n + suc (length l) ≡ suc n + length l = omega arith in
    (h.0, h.1, IsSequenced-append g (suc n) l r h.2 (rw e at k))

sequence_of_index :
    (g : GameId) (n : ℕ) (l : List GameEventEnvelope) (i : ℕ) {e : GameEventEnvelope}
    → IsSequenced g n l
    → get_elem? l i ≡ some e
    → e.sequence ≡ n + i
sequence_of_index g n [] i h q = cc
sequence_of_index g n (a ∷ l) zero h q = ground arith
sequence_of_index g n (a ∷ l) (suc i) h q = ground (arith, sequence_of_index g (suc n) l i h.2 q)

module _ (stamps : ℕ → Stamp) where
  -- A batch is appended at the end of the log and returned as it was appended: its events are the
  -- given ones in their order, its sequence numbers go on from the length of the log, and each
  -- envelope names the command and the game.
  pub append_batch_lem :
      (s : EventStore) (evs : List GameEvent) (c : Option Uuid)
      → let (t, envs) = append_batch stamps s evs c in
        (t.log ≡ s.log ++ envs)
        × (t.game_id ≡ s.game_id)
        × (map (λ e. e.event) envs ≡ evs)
        × IsSequenced s.game_id (length s.log) envs
        × From c envs
  unfolding append_batch Events.new
  append_batch_lem s [] c = (sym (append-nil s.log), refl, refl, tt, tt)
  append_batch_lem s (e ∷ evs) c =
      let t = (append stamps s e c).0 in
      let env = (append stamps s e c).1 in
      let ih = append_batch_lem t evs c in
      let more : length t.log ≡ suc (length s.log) =
        ground (arith, length-append s.log (env ∷ [])) in
      (
        ih.0 ∙ append_assoc s.log (env ∷ []) (append_batch stamps t evs c).1,
        ih.1,
        ap (◌∷◌ e) ih.2,
        (refl, refl, rw more at ih.3),
        (refl, ih.4),
      )

  -- After a batch the log replays to the old events followed by the new ones.
  pub events-append_batch :
      (s : EventStore) (evs : List GameEvent) (c : Option Uuid)
      → events (append_batch stamps s evs c).0 ≡ events s ++ evs
  unfolding events
  events-append_batch s evs c =
      let h = append_batch_lem s evs c in
      ap (map (λ e. e.event)) h.0
      ∙ map-append (λ e. e.event) s.log (append_batch stamps s evs c).1
      ∙ ap (◌++◌ (map (λ e. e.event) s.log)) h.2

-- The log of a store is numbered from 0, and names the game throughout.
abbrev pub IsLog : EventStore → Type 0
IsLog s = IsSequenced s.game_id 0 s.log

-- A batch keeps a log numbered. So the pair of a game's id and a sequence number, which is the key
-- under which the broker gets an envelope, stands for one place of the log.
pub append_batch-IsLog :
    (stamps : ℕ → Stamp) (s : EventStore) (evs : List GameEvent) (c : Option Uuid)
    → IsLog s
    → let t = (append_batch stamps s evs c).0 in
      IsLog t
      × ((i j : ℕ) (a b : GameEventEnvelope)
          → get_elem? t.log i ≡ some a
          → get_elem? t.log j ≡ some b
          → a.sequence ≡ b.sequence
          → i ≡ j)
append_batch-IsLog stamps s evs c h = (
  numbered,
  λ i j a b p q e.
      omega (arith, sequence_of_index _ 0 _ i numbered p, sequence_of_index _ 0 _ j numbered q),
)
  where
    numbered : IsLog (append_batch stamps s evs c).0
    numbered =
        let k = append_batch_lem stamps s evs c in
        rw (k.0, k.1) (IsSequenced-append s.game_id 0 s.log _ h (rw zero-add k.3))
