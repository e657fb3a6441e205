-- ===== src/Tests/Source/Stores.antt =====
-- The test of store/src/store.rs, up to what it prints.
use tic_tac_tussle.Base.{
  ℕ, ◌≡◌, refl, Bool, false, not, ◌&&◌, none, [], ◌∷◌, ok, or_panic, get_elem?, length, ◌>>=◌, ◌>>◌,
  ◌==◌,
}
use tic_tac_tussle.Commands.{Stamp}
use tic_tac_tussle.Events
use tic_tac_tussle.Events.{GameEvent, game_started, tile_placed}
use tic_tac_tussle.Store
use tic_tac_tussle.Store.{events, snapshot, len, is_empty, append, append_batch}
use tic_tac_tussle.Tests.Source.{Test, assert}

-- The derived `==`, on the two kinds of events that the test has.
abbrev eq_event : GameEvent → GameEvent → Bool
eq_event (game_started p) (game_started q) = p == q
eq_event (tile_placed p at) (tile_placed q i) = p == q && at == i
eq_event _ _ = false

abbrev test_event_store_lifecycle : (ℕ → Stamp) → ℕ → Test
test_event_store_lifecycle stamps game_id =
    let store = Store.new game_id in
    let event1 = game_started 1 in
    let event2 = tile_placed 1 0 in
    let event3 = tile_placed 2 1 in
    let (store1, env1) = append stamps store event1 none in
    let (store3, batch) = append_batch stamps store1 (event2 ∷ event3 ∷ []) none in
    do
      assert (store.game_id == game_id)
      assert (is_empty store)
      assert (len store == 0)
      assert (eq_event env1.event event1)
      assert (env1.sequence == 0)
      assert (len store1 == 1)
      assert (not (is_empty store1))
      assert (length batch == 2)
      batch0 ← or_panic (get_elem? batch 0)
      assert (batch0.sequence == 1)
      batch1 ← or_panic (get_elem? batch 1)
      assert (batch1.sequence == 2)
      assert (len store3 == 3)
      assert (length (events store3) == 3)
      first ← or_panic (get_elem? (events store3) 0)
      assert (eq_event first event1)
      assert (length (snapshot store3) == 3)
      last ← or_panic (get_elem? (snapshot store3) 2)
      assert (eq_event last.event event3)

-- It passes, for one id and any stamps.
stores_pass : (stamps : ℕ → Stamp) → test_event_store_lifecycle stamps 5 ≡ ok tt
unfolding Store.new events snapshot len is_empty append append_batch Events.new
stores_pass stamps = refl
