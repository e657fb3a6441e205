-- ===== src/UserData.antt =====
-- The player's name in the netcode user data: written in client/src/main.rs (`build_transport`),
-- read in server/src/main.rs (`name_from_user_data`). A byte is a number, and a text's bytes are its
-- UTF-8 encoding; `size` is NETCODE_USER_DATA_BYTES.
pub mod Laws
use Prim.Native.String
use tic_tac_tussle.Base.{
  ℕ, zero, suc, ◌+◌, ◌-◌, ◌*◌, ◌/◌, ◌%◌, min, Bool, not, Option, none, some, List, [], ◌∷◌, ◌++◌,
  String, length, take, drop, replicate, ltb, if◌then◌else◌,
}

-- `to_le_bytes` of a number of `k` bytes
unfoldable pub to_le_bytes : ℕ → ℕ → List ℕ
to_le_bytes zero n = []
to_le_bytes (suc k) n = (n % 256) ∷ to_le_bytes k (n / 256)

-- `from_le_bytes`
unfoldable pub from_le_bytes : List ℕ → ℕ
from_le_bytes [] = 0
from_le_bytes (b ∷ l) = b + 256 * from_le_bytes l

-- `ud[a..a + src.len()].copy_from_slice(src)`; `none` is the panic of a range past the end.
unfoldable pub copy_at : List ℕ → ℕ → List ℕ → Option (List ℕ)
copy_at ud a src =
    if ltb (length ud) (a + length src)
    then none
    else some (take a ud ++ (src ++ drop (a + length src) ud))

-- `&ud[a..a + n]`
unfoldable pub slice : List ℕ → ℕ → ℕ → Option (List ℕ)
slice ud a n = if ltb (length ud) (a + n) then none else some (take n (drop a ud))

infixl 5 ◌>>=◌
abbrev pub ◌>>=◌ : {A B : Type 0} → Option A → (A → Option B) → Option B
none >>= f = none
some a >>= f = f a

-- The user data that `build_transport` makes from the bytes of the name.
unfoldable pub encode_name : ℕ → List ℕ → Option (List ℕ)
unfolding copy_at
encode_name size nb = do
  let len = min (length nb) (size - 8)
  ud ← copy_at (replicate size 0) 0 (to_le_bytes 8 len)
  copy_at ud 8 (take len nb)

-- `name_from_user_data`; `lossy` is `String::from_utf8_lossy`.
unfoldable pub name_from_user_data : (List ℕ → String) → ℕ → List ℕ → Option String
unfolding slice
name_from_user_data lossy size ud = do
  head ← slice ud 0 8
  name ← slice ud 8 (min (from_le_bytes head) (size - 8))
  some (lossy name)

-- The name that `handle_connections` takes for a client: that of its user data, if the transport has
-- some, or one made of its id, which `print` prints.
unfoldable pub client_name :
    (List ℕ → String) → ℕ → (ℕ → String) → Option (List ℕ) → ℕ → Option String
unfolding name_from_user_data
client_name lossy size print (some ud) client_id = name_from_user_data lossy size ud
client_name lossy size print none client_id = some (String.◌++◌ "Player-" (print client_id))
