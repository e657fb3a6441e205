-- ===== src/Base/Vec/Laws.antt =====
-- The laws of reading and writing an array, of `all` and of counting.
use Prim.Native.Nat.{ℕ, zero, suc, ◌+◌, ◌<◌, ◌≤◌}
use mathlib.Core.Path.{◌≡◌, refl, ap}
use mathlib.Core.Logic.{◌≢◌, inl, inr}
use mathlib.Core.Bool.{Bool, true, false}
use mathlib.Core.Option.{some}
use native.Mathlib.Omega.{arith}
use tic_tac_tussle.Base.Tests.{if◌then◌else◌, Bool-cases}
use tic_tac_tussle.Base.Vec.{Vec, nil, cons, get_elem?, set, replicate, all, count}

module _ {A : Type 0} where
  pub get_elem?-lt : {n : ℕ} (v : Vec A n) (i : ℕ) → i < n → (a : A) × (get_elem? v i ≡ some a)
  unfolding get_elem?
  get_elem?-lt nil i h = absurd (omega arith)
  get_elem?-lt (cons a v) zero h = (a, refl)
  get_elem?-lt (cons a v) (suc i) h = get_elem?-lt v i (omega arith)

  pub lt-get_elem? : {n : ℕ} (v : Vec A n) (i : ℕ) {a : A} → get_elem? v i ≡ some a → i < n
  unfolding get_elem?
  lt-get_elem? nil i h = cc
  lt-get_elem? (cons b v) zero h = omega arith
  lt-get_elem? (cons b v) (suc i) h = omega (arith, lt-get_elem? v i h)

  pub get_elem?-set_self :
      {n : ℕ} (v : Vec A n) (i : ℕ) (b : A) → i < n → get_elem? (set v i b) i ≡ some b
  unfolding get_elem? set
  get_elem?-set_self nil i b h = absurd (omega arith)
  get_elem?-set_self (cons a v) zero b h = refl
  get_elem?-set_self (cons a v) (suc i) b h = get_elem?-set_self v i b (omega arith)

  pub get_elem?-set_ne :
      {n : ℕ} (v : Vec A n) (i j : ℕ) (b : A) → i ≢ j → get_elem? (set v i b) j ≡ get_elem? v j
  unfolding get_elem? set
  get_elem?-set_ne nil i j b h = refl
  get_elem?-set_ne (cons a v) zero zero b h = absurd (h refl)
  get_elem?-set_ne (cons a v) zero (suc j) b h = refl
  get_elem?-set_ne (cons a v) (suc i) zero b h = refl
  get_elem?-set_ne (cons a v) (suc i) (suc j) b h = get_elem?-set_ne v i j b (λ e. h (ap suc e))

  pub get_elem?-replicate : (n i : ℕ) (b : A) → i < n → get_elem? (replicate n b) i ≡ some b
  unfolding get_elem? replicate
  get_elem?-replicate zero i b h = absurd (omega arith)
  get_elem?-replicate (suc n) zero b h = refl
  get_elem?-replicate (suc n) (suc i) b h = get_elem?-replicate n i b (omega arith)

  -- Writing one place changes a count by that place.
  pub count-set :
      {n : ℕ} (p : A → Bool) (v : Vec A n) (i : ℕ) {a : A} (b : A)
      → get_elem? v i ≡ some a
      → count p (set v i b) + (if p a then 1 else 0) ≡ count p v + (if p b then 1 else 0)
  unfolding get_elem? set count
  count-set p nil i b h = cc
  count-set p (cons c v) zero b h = ground arith
  count-set p (cons c v) (suc i) b h = ground (arith, count-set p v i b h)

  pub count-pos :
      {n : ℕ} (p : A → Bool) (v : Vec A n) (i : ℕ) {a : A}
      → get_elem? v i ≡ some a
      → p a ≡ true
      → 0 < count p v
  unfolding get_elem? count
  count-pos p nil i h t = cc
  count-pos p (cons c v) zero h t = ground arith
  count-pos p (cons c v) (suc i) h t = ground (arith, count-pos p v i h t)

  pub count-le : {n : ℕ} (p : A → Bool) (v : Vec A n) → count p v ≤ n
  unfolding count
  count-le p nil = omega arith
  count-le p (cons c v) = ground (arith, count-le p v)

  -- `all` holds exactly when the test passes at every index.
  pub all_sound :
      {n : ℕ} (p : A → Bool) (v : Vec A n) (i : ℕ) {a : A}
      → all p v ≡ true
      → get_elem? v i ≡ some a
      → p a ≡ true
  unfolding all get_elem?
  all_sound p nil i h e = cc
  all_sound p (cons c v) zero h e = ground arith
  all_sound p (cons c v) (suc i) h e = all_sound p v i (ground arith) e

  pub all_complete :
      {n : ℕ} (p : A → Bool) (v : Vec A n)
      → ((i : ℕ) (a : A) → get_elem? v i ≡ some a → p a ≡ true)
      → all p v ≡ true
  unfolding all get_elem?
  all_complete p nil h = refl
  all_complete p (cons c v) h = rw (h zero c refl) (all_complete p v (λ i a e. h (suc i) a e))

  -- Where `all` fails there is an index at which the test does.
  pub all_refuted :
      {n : ℕ} (p : A → Bool) (v : Vec A n)
      → all p v ≡ false
      → (i : ℕ) × (a : A) × (get_elem? v i ≡ some a) × (p a ≡ false)
  unfolding all get_elem?
  all_refuted p nil h = cc
  all_refuted p (cons c v) h = elim (Bool-cases (p c)) [
    | inr e ↦ (0, c, refl, e)
    | inl e ↦ let (i, a, at, q) = all_refuted p v (rw e at h) in (suc i, a, at, q)
  ]
