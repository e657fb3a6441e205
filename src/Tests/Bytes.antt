-- ===== src/Tests/Bytes.antt =====
-- A name of five bytes in a buffer of twelve, which has room for four of them.
use tic_tac_tussle.Base.{
  ◌==◌, if◌then◌else◌, ℕ, List, [], ◌∷◌, String, length, min, take, ◌-◌, some, ◌≡◌, refl, arith,
}
use tic_tac_tussle.UserData.{
  encode_name, name_from_user_data, to_le_bytes, from_le_bytes, slice, copy_at,
}
use tic_tac_tussle.UserData.Laws.{name_from_user_data-encode_name}

abbrev alice : List ℕ
alice = 65 ∷ 108 ∷ 105 ∷ 99 ∷ 101 ∷ []

abbrev text : List ℕ → String
text [] = ""
text (b ∷ l) = if b == 65 then "Al" else "?"

-- A length that is not the client's: the server reads to the end of the user data.
abbrev forged : List ℕ
forged = 255 ∷ 255 ∷ 255 ∷ 255 ∷ 255 ∷ 255 ∷ 255 ∷ 255 ∷ 65 ∷ 108 ∷ 0 ∷ 0 ∷ []

written : encode_name 12 alice ≡ some (4 ∷ 0 ∷ 0 ∷ 0 ∷ 0 ∷ 0 ∷ 0 ∷ 0 ∷ 65 ∷ 108 ∷ 105 ∷ 99 ∷ [])
unfolding encode_name to_le_bytes copy_at
written = refl

forged_read : name_from_user_data text 12 forged ≡ some "Al"
unfolding name_from_user_data slice from_le_bytes
forged_read = refl

name_from_user_data-encode_name_example :
    (ud : List ℕ) × ((encode_name 12 alice ≡ some ud)
      × ((length ud ≡ 12)
          × (name_from_user_data text 12 ud
              ≡ some (text (take (min (length alice) (12 - 8)) alice)))))
name_from_user_data-encode_name_example =
    name_from_user_data-encode_name text 12 alice (omega arith) (omega arith)
