-- ===== src/Client/Frame/Keeps.antt =====
-- client/src/main.rs: what the systems of `Update` leave as it is, in any order.
use mathlib.Core.List
use tic_tac_tussle.Base.{
  ◌≡◌, refl, ap, sym, subst, ◌⊎◌, inl, inr, Option, some, none, Outcome-cases, Option-cases, ◌&◌,
  ◌++◌, append-nil, List, [], ◌∷◌, String, Bytes, ℕ, Bool,
}
use tic_tac_tussle.State.{GameState}
use tic_tac_tussle.Commands.{GameCommand, join_game}
use tic_tac_tussle.Events.{GameEvent}
use tic_tac_tussle.Network.{Codec}
use tic_tac_tussle.Client.{Client, send, set_local_player_id, joins, pair_of, update_pair}
use tic_tac_tussle.Client.Screen.{Float, Window}
use tic_tac_tussle.Client.Input.{clicked, handle_input}
use tic_tac_tussle.Client.Display.{Palette, render_hover}
use tic_tac_tussle.Client.Frame.{
  App, Inputs, System, run_systems, on_client, hover_system, update_systems,
}

-- Every system of the list.
abbrev pub All : {F K : Type 0} → (System F K → Type 0) → List (System F K) → Type 0
All P [] = Unit {0}
All P (f ∷ l) = P f × All P l

-- What holds of all systems of a list holds of them in any order.
pub All-Permᴰ :
    {F K : Type 0} (P : System F K → Type 0) {l k : List (System F K)}
    → List.Permᴰ l k
    → All P k
    → All P l
All-Permᴰ P List.Permᴰ.nil h = h
All-Permᴰ P (List.Permᴰ.cons e q) (p, h) = (subst P (sym e) p, All-Permᴰ P q h)
All-Permᴰ P (List.Permᴰ.swap e f) (p, (q, h)) = (subst P (sym e) q, (subst P (sym f) p, h))
All-Permᴰ P (List.Permᴰ.trans a b) h = All-Permᴰ P a (All-Permᴰ P b h)

-- The client knows no pair, or the one of the first of these events.
abbrev pub KnowsPair : List GameEvent → Client → Type 0
KnowsPair l c =
    (c.maybe_pair ≡ none)
    ⊎ ((first : List GameEvent) × (rest : List GameEvent) × (l ≡ first ++ rest)
        × (c.maybe_pair ≡ pair_of (joins first)))

-- The client has received these events, is in this state, and knows no pair but theirs.
abbrev pub HasReplayed : List GameEvent → GameState → Client → Type 0
HasReplayed l s c = (c.received_events ≡ l) × (c.state ≡ s) × KnowsPair l c

-- What `send` does: only the outbox changes.
send_lem :
    {E : Type 0} (commands : Codec E GameCommand) (cmd : GameCommand) (c : Client)
    → (b : Bytes) × (send commands cmd c ≡ some (record c { outbox = c.outbox ++ b ∷ [] }))
unfolding send
send_lem commands cmd c = let (b, run, back) = commands.round_trip cmd in (b, rw (send, run) refl)

-- `handle_input` panics, or only sends.
pub handle_input_cases :
    {E F : Type 0} (float : Float F) (commands : Codec E GameCommand) (windows : Option (Window F))
    (just_pressed : Bool) (c : Client)
    → (handle_input float commands windows just_pressed c ≡ none)
      ⊎ ((o : List Bytes) × (handle_input float commands windows just_pressed c
            ≡ some (record c { outbox = o })))
unfolding handle_input
handle_input_cases float commands windows just_pressed c =
    elim (Outcome-cases (clicked float windows just_pressed c)) [
      | inl (cmd, e) ↦
          let (b, run) = send_lem commands cmd c in
          inr (c.outbox ++ b ∷ [], rw (handle_input, e, run) refl)
      | inr (inl (u, e)) ↦ inr (c.outbox, rw (handle_input, e) refl)
      | inr (inr e) ↦ inl (rw (handle_input, e) refl)
    ]

module _ (l : List GameEvent) (s : GameState) where
  -- If the call returns, the client has still received these events.
  abbrev Stays : (Client → Option Client) → Type 0
  Stays f = (c d : Client) → f c ≡ some d → HasReplayed l s c → HasReplayed l s d

  abbrev pub Keeps : {F K : Type 0} → System F K → Type 0
  Keeps f = (a b : App _ _) → f a ≡ some b → HasReplayed l s a.client → HasReplayed l s b.client

  on_client-Keeps :
      {F K : Type 0} (f : Client → Option Client) → Stays f → Keeps {F = F} {K = K} (on_client f)
  on_client-Keeps f stays a b e h = elim (Option-cases (f a.client)) [
    | inl stuck ↦ cc (rw (on_client, stuck) at e)
    | inr (c, run) ↦
        let same : record a { client = c } ≡ b = cc (rw (on_client, run) at e) in
        subst (λ x. HasReplayed l s x.client) same (stays a.client c run h)
  ]

  input-Stays :
      {E F : Type 0} (float : Float F) (commands : Codec E GameCommand)
      (windows : Option (Window F)) (just_pressed : Bool)
      → Stays (handle_input float commands windows just_pressed)
  input-Stays float commands windows just_pressed c d e h =
      elim (handle_input_cases float commands windows just_pressed c) [
        | inl stuck ↦ cc
        | inr (o, run) ↦
            let same : record c { outbox = o } ≡ d = cc in subst (HasReplayed l s) same h
      ]

  id-Stays :
      {E : Type 0} (commands : Codec E GameCommand) (client_id : ℕ) (username : String)
      → Stays (set_local_player_id commands client_id username)
  unfolding set_local_player_id
  id-Stays commands client_id username c d e h = elim (Option-cases c.local_player_id) [
    | inl unknown ↦
        let joining = record c { local_player_id = some client_id } in
        let (b, run) = send_lem commands (join_game client_id username) joining in
        let same : record joining { outbox = c.outbox ++ b ∷ [] } ≡ d =
          cc (rw (unknown, run) at e) in
        subst (HasReplayed l s) same h
    | inr (id, known) ↦ let same : c ≡ d = cc in subst (HasReplayed l s) same h
  ]

  pair-Stays : Stays (λ c. some (update_pair c))
  unfolding update_pair
  pair-Stays c d e h = elim (Option-cases c.maybe_pair) [
    | inl unknown ↦
        let same : record c { maybe_pair = pair_of (joins c.received_events) } ≡ d =
          cc (rw unknown at e) in
        subst (HasReplayed l s) same
          (h.0, h.1, inr (l, [], sym (append-nil l), ap (λ k. pair_of (joins k)) h.0))
    | inr (id, known) ↦ let same : c ≡ d = cc (rw known at e) in subst (HasReplayed l s) same h
  ]

  only_drawn :
      {F K : Type 0} (f : App F K → App F K)
      → ((a : App F K) → (f a).client ≡ a.client)
      → Keeps {F = F} {K = K} (λ a. some (f a))
  only_drawn f same a b e h =
      let there : f a ≡ b = cc in
      subst (λ x. HasReplayed l s x.client) there (subst (HasReplayed l s) (sym (same a)) h)

  module _ {E F K : Type 0} (float : Float F) (palette : Palette F K)
      (commands : Codec E GameCommand) (codec : Codec E GameEvent) (client_id : ℕ)
      (username : String) where
    hover-Keeps : (windows : Option (Window F)) → Keeps (hover_system float palette windows)
    hover-Keeps windows a b e h =
        elim (Option-cases (render_hover float palette windows a.client a.scene)) [
          | inl stuck ↦ cc (rw (hover_system, stuck) at e)
          | inr (scene, run) ↦
              let same : record a { scene = scene } ≡ b = cc (rw (hover_system, run) at e) in
              subst (λ x. HasReplayed l s x.client) same h
        ]

    systems-Keep :
        (i : Inputs F)
        → All Keeps (update_systems float palette commands codec client_id username i)
    unfolding update_systems
    systems-Keep i =
        on_client-Keeps _ (id-Stays commands client_id username)
        & on_client-Keeps _ pair-Stays
        & on_client-Keeps _ (input-Stays float commands i.windows i.just_pressed)
        & only_drawn (λ a. _) (λ a. refl)
        & hover-Keeps i.windows
        & only_drawn (λ a. _) (λ a. refl)
        & tt

    run_systems-Keeps : (order : List (System F K)) → All Keeps order → Keeps (run_systems order)
    unfolding run_systems
    run_systems-Keeps [] k a b e h = only_drawn (λ a. a) (λ a. refl) a b e h
    run_systems-Keeps (f ∷ order) (k, all) a b e h = elim (Option-cases (f a)) [
      | inl stuck ↦ cc (rw (run_systems, stuck) at e)
      | inr (x, run) ↦ run_systems-Keeps order all x b (rw (run_systems, run) at e) (k a x run h)
    ]

    -- Whatever the order of the systems, the client has still received these events.
    pub update_systems-HasReplayed :
        (i : Inputs F) {order : List (System F K)}
        → List.Permᴰ order (update_systems float palette commands codec client_id username i)
        → Keeps (run_systems order)
    update_systems-HasReplayed i {order} p =
        run_systems-Keeps order (All-Permᴰ Keeps p (systems-Keep i))
