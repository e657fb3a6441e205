-- ===== src/Base/Lists.antt =====
-- Lists measured and indexed by native numbers, under the library's names.
use Prim.Native.Nat.{ℕ, zero, suc, ◌+◌, ◌-◌, ◌<◌, min}
use mathlib.Core.Path.{◌≡◌, refl, ap}
use mathlib.Core.List.{List, [], ◌∷◌, ◌++◌, map}
use mathlib.Core.Option.{Option, none, some}
use native.Mathlib.Nat.{zero-add, suc-add}
use native.Mathlib.Omega.{arith}

-- `Vec<u8>`
abbrev pub Bytes : Type 0
Bytes = List ℕ

module _ {ℓ} {A : Type ℓ} where
  abbrev pub length : List A → ℕ
  length [] = 0
  length (a ∷ l) = suc (length l)

  abbrev pub get_elem? : List A → ℕ → Option A
  get_elem? [] i = none
  get_elem? (a ∷ l) zero = some a
  get_elem? (a ∷ l) (suc i) = get_elem? l i

  abbrev pub take : ℕ → List A → List A
  take zero l = []
  take (suc n) [] = []
  take (suc n) (a ∷ l) = a ∷ take n l

  abbrev pub drop : ℕ → List A → List A
  drop zero l = l
  drop (suc n) [] = []
  drop (suc n) (a ∷ l) = drop n l

  abbrev pub replicate : ℕ → A → List A
  replicate zero a = []
  replicate (suc n) a = a ∷ replicate n a

  pub length-append : (l r : List A) → length (l ++ r) ≡ length l + length r
  length-append [] r = omega arith
  length-append (a ∷ l) r = omega (arith, length-append l r)

module _ {ℓ} {A : Type ℓ} where
  pub length-map {κ} : {B : Type κ} (l : List A) (f : A → B) → length (map f l) ≡ length l
  length-map [] f = refl
  length-map (a ∷ l) f = ap suc (length-map l f)

  pub take-length : (l : List A) → take (length l) l ≡ l
  take-length [] = refl
  take-length (a ∷ l) = ap (◌∷◌ a) (take-length l)

  -- One element more, at an index in range.
  pub take-suc :
      (l : List A) (i : ℕ) {a : A} → get_elem? l i ≡ some a → take (suc i) l ≡ take i l ++ a ∷ []
  take-suc [] i h = cc
  take-suc (b ∷ l) zero h = ground arith
  take-suc (b ∷ l) (suc i) h = ap (◌∷◌ b) (take-suc l i h)

  pub get_elem?-lt : (l : List A) (i : ℕ) → i < length l → (a : A) × (get_elem? l i ≡ some a)
  get_elem?-lt [] i h = absurd (omega arith)
  get_elem?-lt (a ∷ l) zero h = (a, refl)
  get_elem?-lt (a ∷ l) (suc i) h = get_elem?-lt l i (omega arith)

  pub length-replicate : (n : ℕ) (a : A) → length (replicate n a) ≡ n
  length-replicate zero a = refl
  length-replicate (suc n) a = ap suc (length-replicate n a)

  pub length-take : (n : ℕ) (l : List A) → length (take n l) ≡ min n (length l)
  length-take zero l = omega arith
  length-take (suc n) [] = omega arith
  length-take (suc n) (a ∷ l) = omega (arith, length-take n l)

  pub length-drop : (n : ℕ) (l : List A) → length (drop n l) ≡ length l - n
  length-drop zero l = omega arith
  length-drop (suc n) [] = omega arith
  length-drop (suc n) (a ∷ l) = omega (arith, length-drop n l)

  pub take-append : (l r : List A) → take (length l) (l ++ r) ≡ l
  take-append [] r = refl
  take-append (a ∷ l) r = ap (◌∷◌ a) (take-append l r)

  pub drop-append : (l r : List A) (n : ℕ) → drop (length l + n) (l ++ r) ≡ drop n r
  drop-append [] r n = rw zero-add
  drop-append (a ∷ l) r n = rw suc-add (drop-append l r n)
