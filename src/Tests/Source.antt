-- ===== src/Tests/Source.antt =====
-- The unit tests of the repository, run on the model: a test passes if it returns, as no assertion and
-- no `unwrap` has panicked.
mod Boards
mod States
mod Deciding
mod Stores
mod Harness
mod Services
use tic_tac_tussle.Base.{
  Bool, true, false, List, [], ◌∷◌, Outcome, ok, err, panic, ◌>>=◌, ◌>>◌, if◌then◌else◌,
}

abbrev pub Test : Type 0
Test = Outcome (Unit {0}) (Unit {0})

-- `assert!`
abbrev pub assert : Bool → Test
assert b = if b then ok tt else panic

-- `unwrap`
abbrev pub unwrap : {E A : Type 0} → Outcome E A → Outcome (Unit {0}) A
unwrap (ok a) = ok a
unwrap (err e) = panic
unwrap panic = panic

-- All tests of a module.
abbrev pub run_all : List Test → Test
run_all [] = ok tt
run_all (t ∷ l) = do t; run_all l
