-- ===== src/Client/Highlight.antt =====
-- client/src/main.rs: what `render_hover` highlights, frame after frame.
use mathlib.Core.List.Memᴰ
use tic_tac_tussle.Base.{
  ℕ, ◌≡◌, ◌≢◌, ◌⊎◌, Memᴰ, ap, sym, ℕ_discrete, ==-refl, arith, subst, refl, ◌∙◌, Option, some, none,
  Option-cases, inl, inr, List, [], ◌∷◌, map,
}
use tic_tac_tussle.Client.{Client}
use tic_tac_tussle.Client.Screen.{Float, Window}
use tic_tac_tussle.Client.Input.{hovered}
use tic_tac_tussle.Client.Display.{
  Palette, Sprite, Scene, cells, grid_lines, hover_cell, setup, highlight, render_hover,
}

module _ {F K : Type 0} (float : Float F) (palette : Palette F K) where
  -- `set_alpha` replaces the alpha and keeps the rest of the colour.
  abbrev pub IsReplaced : Type 0
  IsReplaced =
      (a b : F) (k : K) → palette.set_alpha a (palette.set_alpha b k) ≡ palette.set_alpha a k

  -- The scenes that frames can lead to.
  pub data IsDrawn : Scene F K → Type 0 where
    spawned : IsDrawn (setup float palette)
    frame :
        {scene next : Scene F K} (windows : Option (Window F)) (c : Client)
        → IsDrawn scene
        → render_hover float palette windows c scene ≡ some next
        → IsDrawn next

  -- The hover cell of an index, where `setup` has put it, with this alpha.
  abbrev pub with_alpha : F → ℕ → Sprite F K
  with_alpha a i = record (hover_cell float palette i) {
    color = palette.set_alpha a palette.transparent;
  }

  -- The hover cell of the hovered index has the alpha 0.2, and each other one is invisible.
  abbrev pub IsLitAt : Option ℕ → ℕ → Sprite F K → Type 0
  IsLitAt at i sprite =
      ((at ≡ some i) × (sprite ≡ with_alpha (float.decimal 2 1) i))
      ⊎ ((at ≢ some i) × (sprite ≡ with_alpha (float.of 0) i))

  -- The scene with the cell `at` highlighted.
  abbrev lit : Option ℕ → Scene F K
  lit at = record {
    grid_lines = grid_lines float palette;
    hover_cells = map (λ idx. highlight float palette at (idx, hover_cell float palette idx)) cells;
  }

  lit_cell :
      (at : Option ℕ) (l : List ℕ) (i : ℕ) (sprite : Sprite F K)
      → Memᴰ
          (i, sprite)
          (map (λ idx. highlight float palette at (idx, hover_cell float palette idx)) l)
      → sprite ≡ (highlight float palette at (i, hover_cell float palette i)).1
  lit_cell at [] i sprite m = absurd (Memᴰ.not-nil m)
  lit_cell at (idx ∷ l) i sprite m = elim (Memᴰ.cases_cons m) [
    | inl e ↦
        ap (λ p. p.1) e
        ∙ ap (λ k. (highlight float palette at (k, hover_cell float palette k)).1)
            (sym (ap (λ p. p.0) e))
    | inr k ↦ lit_cell at l i sprite k
  ]

  highlight-IsLitAt :
      (at : Option ℕ) (i : ℕ)
      → IsLitAt at i (highlight float palette at (i, hover_cell float palette i)).1
  unfolding hover_cell
  highlight-IsLitAt none i = inr (λ h. cc, refl)
  highlight-IsLitAt (some at) i = elim (ℕ_discrete at i) [
    | yes e ↦ inl (ap some e, rw (e, ==-refl i) refl)
    | no ne ↦ inr (λ h. ne (cc), ground arith)
  ]

  missing :
      (windows : Option (Window F)) (c : Client) (scene : Scene F K) {next : Scene F K}
      → hovered float windows c ≡ none
      → render_hover float palette windows c scene ≢ some next
  unfolding render_hover
  missing windows c scene e h = cc (rw (e, render_hover) at h)

  module _ (replaced : IsReplaced) where
    -- A pass over the cells undoes the one before.
    highlight_again :
        (at before : Option ℕ) (l : List (ℕ × Sprite F K))
        → map (highlight float palette at) (map (highlight float palette before) l)
          ≡ map (highlight float palette at) l
    highlight_again at before [] = refl
    highlight_again at before ((idx, sprite) ∷ l) =
        rw (highlight_again at before l, replaced _ _ sprite.color) refl

    render_hover-some :
        (windows : Option (Window F)) (c : Client) (scene : Scene F K) (at : Option ℕ)
        → hovered float windows c ≡ some at
        → render_hover float palette windows c scene
          ≡ some (record scene { hover_cells = map (highlight float palette at) scene.hover_cells })
    unfolding render_hover
    render_hover-some windows c scene at h = rw (h, render_hover) refl

    -- The scene is that of `setup` up to the alphas of the hover cells.
    abbrev IsLit : Scene F K → Type 0
    IsLit scene =
        (scene.grid_lines ≡ grid_lines float palette)
        × ((at : Option ℕ)
            → map (highlight float palette at) scene.hover_cells ≡ (lit at).hover_cells)

    IsDrawn-IsLit : {scene : Scene F K} → IsDrawn scene → IsLit scene
    unfolding setup
    IsDrawn-IsLit spawned = (refl, λ at. refl)
    IsDrawn-IsLit (frame {scene = scene} {next = next} windows c past h) =
        elim (Option-cases (hovered float windows c)) [
          | inl e ↦ absurd (missing windows c scene e h)
          | inr (before, e) ↦
              let (lines, cells_lit) = IsDrawn-IsLit past in
              let run = render_hover-some windows c scene before e in
              let same : record scene {
                hover_cells = map (highlight float palette before) scene.hover_cells;
              }
                  ≡ next =
                cc in
              subst IsLit same
                (lines, λ at. highlight_again at before scene.hover_cells ∙ cells_lit at)
        ]

    -- After any frames, where a set alpha replaces the one before, the next frame succeeds where
    -- the hovered index is known: its hover cells are those of the nine indices in their order,
    -- each where setup has put it; the one of the hovered index has the alpha 0.2, and every other
    -- one the alpha 0; and the grid lines are those of setup.
    pub render_hover_lem :
        (scene : Scene F K)
        → IsDrawn scene
        → (windows : Option (Window F)) (c : Client) (at : Option ℕ)
        → hovered float windows c ≡ some at
        → (next : Scene F K) × (render_hover float palette windows c scene ≡ some next)
          × (next.grid_lines ≡ grid_lines float palette)
          × (map (λ e. e.0) next.hover_cells ≡ cells)
          × ((i : ℕ) (sprite : Sprite F K)
              → Memᴰ (i, sprite) next.hover_cells
              → IsLitAt at i sprite)
    render_hover_lem scene drawn windows c at h =
        let (lines, cells_lit) = IsDrawn-IsLit drawn in
        (
          lit at,
          render_hover-some windows c scene at h ∙ rw (lines, cells_lit at) refl,
          refl,
          refl,
          λ i sprite m. rw (lit_cell at cells i sprite m) (highlight-IsLitAt at i),
        )
