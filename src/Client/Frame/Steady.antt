-- ===== src/Client/Frame/Steady.antt =====
-- client/src/main.rs: a client that knows its id and its pair does not depend on the order in which
-- its systems run.
use mathlib.Core.List
use tic_tac_tussle.Base.{
  ◌≡◌, refl, ap, sym, subst, inl, inr, Option, some, none, Option-cases, ◌&◌, List, String, ℕ, drop,
}
use tic_tac_tussle.Commands.{GameCommand, join_game}
use tic_tac_tussle.Events.{GameEvent}
use tic_tac_tussle.Network.{Codec}
use tic_tac_tussle.Client.{Client, send, set_local_player_id, update_pair, receive_server_events}
use tic_tac_tussle.Client.Screen.{Float}
use tic_tac_tussle.Client.Input.{handle_input}
use tic_tac_tussle.Client.Display.{Palette, render_hover}
use tic_tac_tussle.Client.Frame.{
  App, Inputs, System, on_client, pair_system, pieces_system, hover_system, status_system,
  update_systems, frame,
}
use tic_tac_tussle.Client.Frame.Keeps.{All, handle_input_cases}
use tic_tac_tussle.Client.Frame.Outbox.{
  render_pieces-outbox, update_status-outbox, render_hover-outbox,
}
use tic_tac_tussle.Client.Frame.Commute.{
  IsSettled, then_run, Settles, Commute, IsIdle, AllCommute, idle-Commute, drawing-Settles, flip,
  All-map, run_systems-Permᴰ,
}

module _ {E F K : Type 0} (float : Float F) (palette : Palette F K) (commands : Codec E GameCommand)
    (codec : Codec E GameEvent) (client_id : ℕ) (username : String) (i : Inputs F) where
  abbrev id_set : System F K
  id_set = on_client (set_local_player_id commands client_id username)

  abbrev clicks : System F K
  clicks = on_client (handle_input float commands i.windows i.just_pressed)

  abbrev draws : System F K
  draws = pieces_system float palette

  abbrev hovers : System F K
  hovers = hover_system float palette i.windows

  abbrev tells : System F K
  tells = status_system float palette

  id_set-IsIdle : IsIdle id_set
  unfolding set_local_player_id
  id_set-IsIdle a ((id, e), p) =
      let c = a.client in
      let joining = record c { local_player_id = some client_id } in
      let stays =
        subst
          (λ o.
            elim o as (λ x. Option Client) [
              | none ↦ send commands (join_game client_id username) joining
              | some known ↦ some c
            ]
            ≡ some c)
          (sym e) refl in
      rw (id_set, on_client, stays) refl

  pair-IsIdle : IsIdle {F = F} {K = K} pair_system
  unfolding update_pair
  pair-IsIdle a (d, (pair, e)) = rw (pair_system, on_client, e) refl

  idle-Settles : (f : System F K) → IsIdle f → Settles f
  idle-Settles f idle a b h run =
      let same : a ≡ b = cc (idle a h) in subst {A = App F K} (λ x. IsSettled x.client) same h

  clicks-Settles : Settles clicks
  clicks-Settles a b h run =
      elim (handle_input_cases float commands i.windows i.just_pressed a.client) [
        | inl stuck ↦ cc (rw (clicks, on_client, stuck) at run)
        | inr (o, sent) ↦
            let same : record a { client = record (a.client) { outbox = o } } ≡ b =
              cc (rw (clicks, on_client, sent) at run) in
            subst {A = App F K} (λ x. IsSettled x.client) same h
      ]

  draws-Settles : Settles draws
  draws-Settles = drawing-Settles (λ a. _) (λ a. refl)

  hovers-Settles : Settles hovers
  hovers-Settles a b h run =
      elim (Option-cases (render_hover float palette i.windows a.client a.scene)) [
        | inl stuck ↦ cc (rw (hovers, hover_system, stuck) at run)
        | inr (scene, drawn) ↦
            let same : record a { scene = scene } ≡ b =
              cc (rw (hovers, hover_system, drawn) at run) in
            subst {A = App F K} (λ x. IsSettled x.client) same h
      ]

  tells-Settles : Settles tells
  tells-Settles = drawing-Settles (λ a. _) (λ a. refl)

  draws-tells : Commute draws tells
  draws-tells a h = refl

  draws-hovers : Commute draws hovers
  draws-hovers a h = elim (Option-cases (render_hover float palette i.windows a.client a.scene)) [
    | inl stuck ↦ rw (then_run, draws, hovers, pieces_system, hover_system, stuck) refl
    | inr (scene, drawn) ↦ rw (then_run, draws, hovers, pieces_system, hover_system, drawn) refl
  ]

  tells-hovers : Commute tells hovers
  tells-hovers a h = elim (Option-cases (render_hover float palette i.windows a.client a.scene)) [
    | inl stuck ↦ rw (then_run, tells, hovers, status_system, hover_system, stuck) refl
    | inr (scene, drawn) ↦ rw (then_run, tells, hovers, status_system, hover_system, drawn) refl
  ]

  clicks-draws : Commute clicks draws
  clicks-draws a h = elim (handle_input_cases float commands i.windows i.just_pressed a.client) [
    | inl stuck ↦ rw (then_run, clicks, on_client, stuck) refl
    | inr (o, sent) ↦
        let unread = drop a.pieces_read (a.client).written in
        rw (then_run, clicks, on_client, sent, render_pieces-outbox float palette unread a.client o)
          refl
  ]

  clicks-hovers : Commute clicks hovers
  clicks-hovers a h = elim (handle_input_cases float commands i.windows i.just_pressed a.client) [
    | inl stuck ↦ elim (Option-cases (render_hover float palette i.windows a.client a.scene)) [
      | inl blind ↦ rw (then_run, clicks, hovers, on_client, hover_system, stuck, blind) refl
      | inr (scene, drawn) ↦
          rw (then_run, clicks, hovers, on_client, hover_system, stuck, drawn, stuck) refl
    ]
    | inr (o, sent) ↦
        let same = render_hover-outbox float palette i.windows a.client o a.scene in
        elim (Option-cases (render_hover float palette i.windows a.client a.scene)) [
          | inl blind ↦
              rw (then_run, clicks, hovers, on_client, hover_system, sent, same, blind) refl
          | inr (scene, drawn) ↦
              rw (then_run, clicks, hovers, on_client, hover_system, sent, same, drawn, sent) refl
        ]
  ]

  clicks-tells : Commute clicks tells
  clicks-tells a h = elim (handle_input_cases float commands i.windows i.just_pressed a.client) [
    | inl stuck ↦ rw (then_run, clicks, on_client, stuck) refl
    | inr (o, sent) ↦
        let unread = drop a.status_read (a.client).written in
        rw
          (
            then_run,
            clicks,
            on_client,
            sent,
            update_status-outbox float palette unread a.client o a.status,
          )
          refl
  ]

  settles : All Settles (update_systems float palette commands codec client_id username i)
  unfolding update_systems
  settles =
      idle-Settles id_set id_set-IsIdle
      & idle-Settles pair_system pair-IsIdle
      & clicks-Settles
      & draws-Settles
      & hovers-Settles
      & tells-Settles
      & tt

  behind_idle :
      (f : System F K)
      → Settles f
      → Commute f clicks
      → Commute f draws
      → Commute f hovers
      → Commute f tells
      → All (Commute f) (update_systems float palette commands codec client_id username i)
  unfolding update_systems
  behind_idle f s c d h t =
      flip id_set f (idle-Commute id_set f id_set-IsIdle s)
      & flip pair_system f (idle-Commute pair_system f pair-IsIdle s)
      & c
      & d
      & h
      & t
      & tt

  -- An idle system changes places with every other.
  idle-AllCommute :
      (f : System F K)
      → IsIdle f
      → All (Commute f) (update_systems float palette commands codec client_id username i)
  idle-AllCommute f idle = All-map Settles (Commute f) _ (λ g s. idle-Commute f g idle s) settles

  update_systems-AllCommute :
      AllCommute (update_systems float palette commands codec client_id username i)
  unfolding update_systems
  update_systems-AllCommute = (
    settles,
    idle-AllCommute id_set id_set-IsIdle
        & idle-AllCommute pair_system pair-IsIdle
        & (behind_idle clicks clicks-Settles (λ a h. refl) clicks-draws clicks-hovers clicks-tells)
        & (behind_idle draws draws-Settles (flip clicks draws clicks-draws) (λ a h. refl)
            draws-hovers draws-tells)
        & (behind_idle hovers hovers-Settles (flip clicks hovers clicks-hovers)
            (flip draws hovers draws-hovers) (λ a h. refl) (flip tells hovers tells-hovers))
        & (behind_idle tells tells-Settles (flip clicks tells clicks-tells)
            (flip draws tells draws-tells) tells-hovers (λ a h. refl))
        & tt,
  )

  -- Where the client knows its id and its pair, a frame comes to the same, a panic included, in
  -- whatever order the executor takes the systems.
  pub frame_lem :
      (a : App F K) {order : List (System F K)}
      → IsSettled a.client
      → List.Permᴰ order (update_systems float palette commands codec client_id username i)
      → frame float palette commands codec client_id username order i a
        ≡ frame float palette commands codec client_id username
            (update_systems float palette commands codec client_id username i)
            i
            a
  unfolding frame
  frame_lem a h p =
      ap
        (λ r. elim r [
          | some b ↦ on_client (receive_server_events codec i.received) b
          | none ↦ none
        ])
        (run_systems-Permᴰ p update_systems-AllCommute a h)
