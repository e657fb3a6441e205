-- ===== src/Base/Vec.antt =====
-- Rust's arrays `[A; n]`: the length is in the type, and an index is checked when it is used.
pub mod Laws
use Prim.Native.Nat.{ℕ, zero, suc, ◌+◌}
use mathlib.Core.Bool.{Bool, true, ◌&&◌}
use mathlib.Core.Option.{Option, none, some}
use tic_tac_tussle.Base.Tests.{ltb, if◌then◌else◌}

pub data Vec (A : Type 0) : ℕ → Type 0 where
  nil : Vec A zero
  cons : {n : ℕ} → A → Vec A n → Vec A (suc n)

module _ {A : Type 0} where
  -- `v[i]`; `none` is the panic of an index out of range.
  unfoldable pub get_elem? : {n : ℕ} → Vec A n → ℕ → Option A
  get_elem? nil i = none
  get_elem? (cons a v) zero = some a
  get_elem? (cons a v) (suc i) = get_elem? v i

  unfoldable pub set : {n : ℕ} → Vec A n → ℕ → A → Vec A n
  set nil i b = nil
  set (cons a v) zero b = cons b v
  set (cons a v) (suc i) b = cons a (set v i b)

  -- `v[i] = b`; `none` is the panic.
  abbrev pub set? : {n : ℕ} → Vec A n → ℕ → A → Option (Vec A n)
  set? {n} v i b = if ltb i n then some (set v i b) else none

  unfoldable pub replicate : (n : ℕ) → A → Vec A n
  replicate zero a = nil
  replicate (suc n) a = cons a (replicate n a)

  -- `v.iter().all(p)`
  unfoldable pub all : {n : ℕ} → (A → Bool) → Vec A n → Bool
  all p nil = true
  all p (cons a v) = p a && all p v

  -- How many elements pass a test.
  unfoldable pub count : {n : ℕ} → (A → Bool) → Vec A n → ℕ
  count p nil = 0
  count p (cons a v) = if p a then suc (count p v) else count p v
