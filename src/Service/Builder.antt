-- ===== src/Service/Builder.antt =====
-- server/src/game_service.rs: the type-state builder. A field that is not set has the unit type.
use tic_tac_tussle.Store.{EventStore}
use tic_tac_tussle.Service.Monad.{GameService}

pub record Builder (S P B : Type 0) : Type 0 where
  pub store : S
  pub publisher : P
  pub broadcaster : B

-- `GameService::builder()`
unfoldable pub builder : Builder (Unit {0}) (Unit {0}) (Unit {0})
builder = record { store = tt; publisher = tt; broadcaster = tt }

-- `Builder::store`
unfoldable pub set_store :
    {P B : Type 0} → EventStore → Builder (Unit {0}) P B → Builder EventStore P B
set_store s b = record { store = s; publisher = b.publisher; broadcaster = b.broadcaster }

-- `Builder::publisher`
unfoldable pub set_publisher : {S P B : Type 0} → P → Builder S (Unit {0}) B → Builder S P B
set_publisher p b = record { store = b.store; publisher = p; broadcaster = b.broadcaster }

-- `Builder::broadcaster`
unfoldable pub set_broadcaster : {S P N : Type 0} → N → Builder S P (Unit {0}) → Builder S P N
set_broadcaster n b = record { store = b.store; publisher = b.publisher; broadcaster = n }

-- `Builder::build`
unfoldable pub build : {P N : Type 0} → Builder EventStore P N → GameService P N
build b = record { store = b.store; publisher = b.publisher; broadcaster = b.broadcaster }
