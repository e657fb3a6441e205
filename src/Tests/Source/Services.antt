-- ===== src/Tests/Source/Services.antt =====
-- The tests of server/src/game_service.rs and server/src/adapters/renet.rs, up to the texts of errors.
use tic_tac_tussle.Base.{
  ℕ, ◌≡◌, refl, Bool, true, false, [], ◌∷◌, Outcome, ok, err, or_panic, get_elem?, ◌>>=◌, ◌>>◌,
  ◌==◌,
}
use tic_tac_tussle.State.{default}
use tic_tac_tussle.Commands
use tic_tac_tussle.Commands.{Stamp, join_game}
use tic_tac_tussle.Events
use tic_tac_tussle.Events.{GameEvent, player_joined, tile_placed}
use tic_tac_tussle.Decider.{evolve, fold_events, hydrate, decide}
use tic_tac_tussle.Store
use tic_tac_tussle.Store.{events, len, append, append_batch}
use tic_tac_tussle.Ports.Doubles.{Captured, capture, capturing_publisher, noop_broadcaster}
use tic_tac_tussle.Service.{
  GameService, handle, publish_raw, broadcast, broadcast_all, append_events,
}
use tic_tac_tussle.Service.Builder.{builder, set_store, set_publisher, set_broadcaster, build}
use tic_tac_tussle.Network.{renet_broadcast, renet_send_to}
use tic_tac_tussle.Tests.Source.{Test, assert, unwrap, run_all}
use tic_tac_tussle.Tests.Session.{failures, stamps}
use tic_tac_tussle.Tests.Wire.{codec, network, encode}

abbrev service_of : ℕ → GameService Captured (Unit {0})
service_of gid = build (
    set_broadcaster tt (
      set_publisher (record { published = []; commands = [] }) (set_store (Store.new gid) builder)))

abbrev is_join_by : ℕ → GameEvent → Bool
is_join_by p (player_joined q name) = q == p
is_join_by p _ = false

abbrev handle_join_command : ℕ → Test
handle_join_command gid =
    let env = Commands.new (stamps 1) gid (join_game 1 "Alice") in
    let (res, service) =
      handle failures capturing_publisher noop_broadcaster stamps env (service_of gid) in
    do
      unwrap res
      assert (len service.store == 1)
      first ← or_panic (get_elem? (events service.store) 0)
      assert (is_join_by 1 first)

-- `is_err`
abbrev is_err : {E A : Type 0} → Outcome E A → Bool
is_err (err e) = true
is_err _ = false

abbrev handle_wrong_game_id : ℕ → ℕ → Test
handle_wrong_game_id gid1 gid2 =
    let env = Commands.new (stamps 1) gid2 (join_game 1 "Alice") in
    let (res, service) =
      handle failures capturing_publisher noop_broadcaster stamps env (service_of gid1) in
    assert (is_err res)

-- `is_ok`
abbrev is_ok : {E A : Type 0} → Outcome E A → Bool
is_ok (ok a) = true
is_ok _ = false

abbrev test_renet_broadcaster : Test
test_renet_broadcaster =
    let event = tile_placed 1 4 in
    let (sent, server) = renet_broadcast failures codec network event (λ c. []) in
    let (sent_to, after) = renet_send_to failures codec network 123 event server in
    do assert (is_ok sent); assert (is_ok sent_to)

-- They pass, for two ids.
services_pass :
    run_all (handle_join_command 5 ∷ handle_wrong_game_id 5 7 ∷ test_renet_broadcaster ∷ []) ≡ ok tt
unfolding builder set_store set_publisher set_broadcaster build Store.new events len append
    append_batch append_events Events.new Commands.new handle publish_raw broadcast broadcast_all
    capture hydrate fold_events evolve decide default renet_broadcast renet_send_to encode
services_pass = refl
