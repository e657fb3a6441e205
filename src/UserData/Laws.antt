-- ===== src/UserData/Laws.antt =====
-- The name comes through the user data, and reading it never panics.
use tic_tac_tussle.Base.{
  ℕ, zero, suc, ◌+◌, ◌-◌, ◌/◌, ◌^◌, ◌<◌, ◌≤◌, ◌≡◌, refl, ap, sym, ◌∙◌, min, true, some, List, ◌++◌,
  String, length, take, drop, replicate, length-take, length-drop, length-append, length-replicate,
  take-append, drop-append, is_some, arith, none,
}
use Prim.Native.String
use native.Mathlib.Nat.{pow-suc}
use tic_tac_tussle.UserData.{
  to_le_bytes, from_le_bytes, copy_at, slice, encode_name, name_from_user_data, client_name, ◌>>=◌,
}

length-to_le_bytes : (k n : ℕ) → length (to_le_bytes k n) ≡ k
unfolding to_le_bytes
length-to_le_bytes zero n = refl
length-to_le_bytes (suc k) n = ap suc (length-to_le_bytes k (n / 256))

from_le_bytes-to_le_bytes : (k n : ℕ) → n < 256 ^ k → from_le_bytes (to_le_bytes k n) ≡ n
unfolding to_le_bytes from_le_bytes
from_le_bytes-to_le_bytes zero n h = omega arith
from_le_bytes-to_le_bytes (suc k) n h =
    omega (arith, from_le_bytes-to_le_bytes k (n / 256) (omega (arith, pow-suc 256 k)))

slice-in : (l : List ℕ) (a n : ℕ) → a + n ≤ length l → slice l a n ≡ some (take n (drop a l))
unfolding slice
slice-in l a n h = ground arith

take-append_n : (l r : List ℕ) (n : ℕ) → length l ≡ n → take n (l ++ r) ≡ l
take-append_n l r n h = ap (λ k. take k (l ++ r)) (sym h) ∙ take-append l r

slice-head : (l r : List ℕ) → slice (l ++ r) 0 (length l) ≡ some l
slice-head l r =
    slice-in (l ++ r) 0 (length l) (omega (arith, length-append l r)) ∙ ap some (take-append l r)

slice-middle : (l m r : List ℕ) → slice (l ++ (m ++ r)) (length l) (length m) ≡ some m
slice-middle l m r =
    slice-in (l ++ (m ++ r)) (length l) (length m)
      (omega (arith, length-append l (m ++ r), length-append m r))
    ∙ ap some (
        ap (take (length m))
          (ap (λ k. drop k (l ++ (m ++ r))) (omega arith) ∙ drop-append l (m ++ r) 0)
        ∙ take-append m r)

-- Whatever bytes a client sends as its user data, reading the name from them does not panic.
pub name_from_user_data_total :
    (lossy : List ℕ → String) (size : ℕ) (ud : List ℕ)
    → 8 ≤ size
    → length ud ≡ size
    → is_some (name_from_user_data lossy size ud) ≡ true
unfolding name_from_user_data
name_from_user_data_total lossy size ud h e = rw (slice-in ud 0 8 (omega arith)) (
    ap is_some (
      ap (λ o. o >>= (λ name. some (lossy name)))
        (slice-in ud 8 (min (from_le_bytes (take 8 ud)) (size - 8)) (omega arith))))

copy_at-in :
    (ud src : List ℕ) (a : ℕ)
    → a + length src ≤ length ud
    → copy_at ud a src ≡ some (take a ud ++ (src ++ drop (a + length src) ud))
unfolding copy_at
copy_at-in ud src a h = ground arith

-- Text after a header of eight bytes in one buffer, and what is left of the buffer.
two_copies :
    (buffer head text : List ℕ)
    → length head ≡ 8
    → 8 + length text ≤ length buffer
    → (rest : List ℕ) × (((copy_at buffer 0 head >>= λ ud. copy_at ud 8 text)
          ≡ some (head ++ (text ++ rest)))
        × (8 + (length text + length rest) ≡ length buffer))
two_copies buffer head text h f =
    let e3 = length-drop (0 + length head) buffer in
    let e4 = length-append head (drop (0 + length head) buffer) in
    let e6 = length-drop (8 + length text) (head ++ drop (0 + length head) buffer) in
    (
      drop (8 + length text) (head ++ drop (0 + length head) buffer),
      (
        ap (λ o. o >>= λ ud. copy_at ud 8 text) (copy_at-in buffer head 0 (omega arith))
            ∙ (copy_at-in (head ++ drop (0 + length head) buffer) text 8 (omega arith)
                ∙ ap
                    (λ l. some (
                      l
                      ++ (text ++ drop (8 + length text) (head ++ drop (0 + length head) buffer))))
                    (take-append_n head (drop (0 + length head) buffer) 8 h)),
        omega arith,
      ),
    )

two_slices :
    (head text rest : List ℕ) (n : ℕ)
    → length head ≡ 8
    → length text ≡ n
    → (slice (head ++ (text ++ rest)) 0 8 ≡ some head)
      × (slice (head ++ (text ++ rest)) 8 n ≡ some text)
two_slices head text rest n h e = (
  ap (slice (head ++ (text ++ rest)) 0) (sym h) ∙ slice-head head (text ++ rest),
  ap (slice (head ++ (text ++ rest)) 8) (sym e)
      ∙ (ap (λ a. slice (head ++ (text ++ rest)) a (length text)) (sym h)
          ∙ slice-middle head text rest),
)

name_from_user_data_split :
    (lossy : List ℕ → String) (size n : ℕ) (text rest : List ℕ)
    → length text ≡ n
    → n ≤ size - 8
    → size < 256 ^ 8
    → name_from_user_data lossy size (to_le_bytes 8 n ++ (text ++ rest)) ≡ some (lossy text)
unfolding name_from_user_data
name_from_user_data_split lossy size n text rest e h f =
    let back = from_le_bytes-to_le_bytes 8 n (omega arith) in
    let (first, second) = two_slices (to_le_bytes 8 n) text rest n (length-to_le_bytes 8 n) e in
    let len : min (from_le_bytes (to_le_bytes 8 n)) (size - 8) ≡ n = omega arith in
    rw (first, len, second) refl

-- The name that the server reads is the one the client wrote, cut to the bytes that the user data
-- has room for; writing does not panic, and gives user data of the wanted size.
pub name_from_user_data-encode_name :
    (lossy : List ℕ → String) (size : ℕ) (name : List ℕ)
    → 8 ≤ size
    → size < 256 ^ 8
    → (ud : List ℕ) × ((encode_name size name ≡ some ud)
        × ((length ud ≡ size)
            × (name_from_user_data lossy size ud
                ≡ some (lossy (take (min (length name) (size - 8)) name)))))
unfolding encode_name
name_from_user_data-encode_name lossy size name h f =
    let head = to_le_bytes 8 (min (length name) (size - 8)) in
    let text = take (min (length name) (size - 8)) name in
    let e1 = length-take (min (length name) (size - 8)) name in
    let e2 = length-to_le_bytes 8 (min (length name) (size - 8)) in
    let zero_byte : ℕ = 0 in
    let e3 = length-replicate size zero_byte in
    let (rest, (e, l)) = two_copies (replicate size 0) head text e2 (omega arith) in
    let e4 = length-append head (text ++ rest) in
    let e5 = length-append text rest in
    (
      head ++ (text ++ rest),
      (
        e,
        (
          omega arith,
          name_from_user_data_split lossy size (min (length name) (size - 8)) text rest
              (omega arith) (omega arith) f,
        ),
      ),
    )

-- Every client gets a name, without a panic: the one that it wrote into its user data, as far as
-- there is room for it, and a name from its id where the transport has no user data of it.
pub client_name-encode_name :
    (lossy : List ℕ → String) (size : ℕ) (print : ℕ → String) (name : List ℕ) (client_id : ℕ)
    → 8 ≤ size
    → size < 256 ^ 8
    → ((ud : List ℕ) × (encode_name size name ≡ some ud)
        × (client_name lossy size print (some ud) client_id
            ≡ some (lossy (take (min (length name) (size - 8)) name))))
      × (client_name lossy size print none client_id
          ≡ some (String.◌++◌ "Player-" (print client_id)))
unfolding client_name
client_name-encode_name lossy size print name client_id h f =
    let (ud, (written, (sized, read))) = name_from_user_data-encode_name lossy size name h f in
    ((ud, written, read), refl)
