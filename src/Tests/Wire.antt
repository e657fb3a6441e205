-- ===== src/Tests/Wire.antt =====
-- A codec for the events, and a network that delivers everything to everybody.
use Prim.Native.Nat.{compare, Ordering}
use Prim.Native.Char.{Char, char, code, nul, IsScalar, IsLt}
use Prim.Native.String.{[] as empty, ◌∷◌ as ◌:>◌}
use text.Mathlib.TextEquality.{Char-path}
use tic_tac_tussle.Base.{
  ℕ, zero, suc, String, ◌≡◌, ◌≢◌, map, refl, ap, true, Option, some, none, List, [], ◌∷◌, ◌++◌,
  Bytes, ok, ◌==◌, if◌then◌else◌, arith,
}
use tic_tac_tussle.Events.{
  GameEvent, EndGameReason, player_joined, game_started, tile_placed, game_ended, player_won, draw,
}
use tic_tac_tussle.Network.{Codec, Renet}

-- The numbers of characters, tested as the library tests them.
abbrev BothLt : Ordering → Ordering → Type 0
BothLt Ordering.lt o = IsLt o
BothLt Ordering.eq _ = ⊥
BothLt Ordering.gt _ = ⊥

abbrev Scalar : Ordering → Ordering → Ordering → Type 0
Scalar Ordering.lt _ _ = Unit
Scalar Ordering.eq o p = BothLt o p
Scalar Ordering.gt o p = BothLt o p

dec_lt : (o : Ordering) → Dec (IsLt o)
dec_lt Ordering.lt = yes tt
dec_lt Ordering.eq = no (λ h. h)
dec_lt Ordering.gt = no (λ h. h)

dec_both_lt : (o p : Ordering) → Dec (BothLt o p)
unfolding dec_lt
dec_both_lt Ordering.lt p = dec_lt p
dec_both_lt Ordering.eq p = no (λ h. h)
dec_both_lt Ordering.gt p = no (λ h. h)

dec_scalar : (o p q : Ordering) → Dec (Scalar o p q)
unfolding dec_both_lt
dec_scalar Ordering.lt p q = yes tt
dec_scalar Ordering.eq p q = dec_both_lt p q
dec_scalar Ordering.gt p q = dec_both_lt p q

read_char : (n : ℕ) → Dec (IsScalar n) → Char
read_char n (yes p) = char n p
read_char n (no h) = nul

read_char-code : (c : Char) (d : Dec (IsScalar (code c))) → read_char (code c) d ≡ c
unfolding read_char
read_char-code c (yes p) = Char-path _ _ refl
read_char-code (char n p) (no h) = absurd (h p)

codes : String → Bytes
codes empty = []
codes (c :> s) = code c ∷ codes s

letters : Bytes → String
unfolding read_char dec_scalar
letters [] = empty
letters (n ∷ l) =
    read_char n (dec_scalar (compare n 55296) (compare 57343 n) (compare n 1114112)) :> letters l

letters-codes : (s : String) → letters (codes s) ≡ s
unfolding letters codes
letters-codes empty = refl
letters-codes (c :> s) =
    rw
      (
        read_char-code c (
            dec_scalar (compare (code c) 55296) (compare 57343 (code c))
              (compare (code c) 1114112)),
        letters-codes s,
      )
      refl

unfoldable pub encode : GameEvent → Bytes
unfolding codes
encode (player_joined p name) = 0 ∷ p ∷ codes name
encode (game_started p) = 1 ∷ p ∷ []
encode (tile_placed p at) = 2 ∷ p ∷ at ∷ []
encode (GameEvent.player_left p) = 3 ∷ p ∷ []
encode (game_ended (player_won p)) = 4 ∷ p ∷ []
encode (game_ended draw) = 5 ∷ []
encode (game_ended (EndGameReason.player_left p)) = 6 ∷ p ∷ []

decode_tag : ℕ → Bytes → Option GameEvent
unfolding letters
decode_tag zero (p ∷ name) = some (player_joined p (letters name))
decode_tag (suc zero) (p ∷ l) = some (game_started p)
decode_tag (suc (suc zero)) (p ∷ (at ∷ l)) = some (tile_placed p at)
decode_tag (suc (suc (suc zero))) (p ∷ l) = some (GameEvent.player_left p)
decode_tag (suc (suc (suc (suc zero)))) (p ∷ l) = some (game_ended (player_won p))
decode_tag (suc (suc (suc (suc (suc zero))))) l = some (game_ended draw)
decode_tag (suc (suc (suc (suc (suc (suc k)))))) (p ∷ l) =
    some (game_ended (EndGameReason.player_left p))
decode_tag _ _ = none

unfoldable pub decode : Bytes → Option GameEvent
unfolding decode_tag
decode [] = none
decode (tag ∷ l) = decode_tag tag l

pub decode-encode : (e : GameEvent) → decode (encode e) ≡ some e
unfolding decode encode
decode-encode (player_joined p name) = ap (λ n. some (player_joined p n)) (letters-codes name)
decode-encode (game_started p) = refl
decode-encode (tile_placed p at) = refl
decode-encode (GameEvent.player_left p) = refl
decode-encode (game_ended (player_won p)) = refl
decode-encode (game_ended draw) = refl
decode-encode (game_ended (EndGameReason.player_left p)) = refl

abbrev pub codec : {E : Type 0} → Codec E GameEvent
codec = record {
  encode_to_vec = λ e. ok (encode e);
  decode_from_slice = decode;
  round_trip = λ e. (encode e, refl, decode-encode e);
}

pub decode-encode_all : (l : List GameEvent) → map decode (map encode l) ≡ map some l
decode-encode_all [] = refl
decode-encode_all (e ∷ l) = rw (decode-encode e, decode-encode_all l) refl

-- The messages sent to each client; every client is connected.
abbrev pub Queues : Type 0
Queues = ℕ → List Bytes

-- A message for one client.
abbrev pub send : ℕ → Bytes → Queues → Queues
send d b n c = if d == c then n c ++ b ∷ [] else n c

pub send-same : (b : Bytes) (n : Queues) (c : ℕ) → send c b n c ≡ n c ++ b ∷ []
send-same b n c = ground arith

pub send-other : (b : Bytes) (n : Queues) (c d : ℕ) → c ≢ d → send d b n c ≡ n c
send-other b n c d ne = ground arith

abbrev pub network : Renet Queues
network = record {
  broadcast_message = λ b n c. n c ++ b ∷ [];
  send_message = send;
  is_connected = λ n c. true;
  sent = λ n c. n c;
  broadcast_message-sent = λ b n c on. (refl, refl);
  send_message-sent = λ b n c on. (refl, send-same b n c);
  send_message-other = λ b n c d ne. (refl, send-other b n c d ne);
}
