-- ===== src/Simulation/Replay.antt =====
-- store/src/simulation.rs: the harness always shows the state of the events up to its cursor.
use tic_tac_tussle.Base.{
  ℕ, zero, suc, ◌+◌, ◌-◌, ◌≤◌, ◌<◌, ◌≡◌, refl, sym, ap, ◌∙◌, subst, Bool, true, false, Option, none,
  some, List, [], ◌∷◌, length, get_elem?, get_elem?-lt, take, take-suc, take-length, min, Outcome,
  ok, panic, Option-cases, inl, inr, arith, dec_lt, ◌⊎◌,
}
use native.Mathlib.Numerals.{add-one}
use tic_tac_tussle.State.{GameState, default}
use tic_tac_tussle.Events.{GameEvent}
use tic_tac_tussle.Decider.{evolve, fold_events, hydrate}
use tic_tac_tussle.Decider.History.{fold_events-append}
use tic_tac_tussle.Simulation.{
  SimulationHarness, from_log, from_log_up_to, step_forward, rewind_to, run_loop, run_to_end,
}

-- The cursor is in the log, and the state is that of the events before it.
pub record IsSynced (h : SimulationHarness) : Type 0 where
  pub within : h.cursor ≤ length h.log
  pub replayed : hydrate (take h.cursor h.log) ≡ some h.state

-- The event under the cursor takes the state of the events before it on by one.
hydrate-take-suc :
    (l : List GameEvent) (i : ℕ) {e : GameEvent} {s : GameState}
    → get_elem? l i ≡ some e
    → hydrate (take i l) ≡ some s
    → hydrate (take (suc i) l) ≡ evolve s e
unfolding hydrate fold_events
hydrate-take-suc l i {e} {s} q h =
    ap (fold_events default) (take-suc l i q)
    ∙ fold_events-append default (take i l) (e ∷ []) h
    ∙ ground (arith, Option-cases (evolve s e))

-- A log whose beginning panics panics.
fold_events-take :
    (s : GameState) (i : ℕ) (l : List GameEvent)
    → fold_events s (take i l) ≡ none
    → fold_events s l ≡ none
unfolding fold_events
fold_events-take s zero l h = cc
fold_events-take s (suc i) [] h = cc
fold_events-take s (suc i) (e ∷ l) h = elim (Option-cases (evolve s e)) [
  | inl p ↦ rw (p, fold_events)
  | inr (t, p) ↦ rw (p, fold_events) (fold_events-take t i l (rw (p, fold_events) at h))
]

-- A step within the log panics where the event does, and else moves on by one event.
step_forward-lt :
    (h : SimulationHarness) {e : GameEvent}
    → h.cursor < length h.log
    → get_elem? h.log h.cursor ≡ some e
    → ((evolve h.state e ≡ none) × (step_forward h ≡ none))
      ⊎ ((s : GameState) × (evolve h.state e ≡ some s)
          × (step_forward h ≡ some (record h { state = s; cursor = h.cursor + 1 }, true)))
unfolding step_forward
step_forward-lt h {e} lt q = elim (Option-cases (evolve h.state e)) [
  | inl p ↦ inl (p, ground arith)
  | inr (s, p) ↦ inr (s, p, ground arith)
]

step_forward-end :
    (h : SimulationHarness) → length h.log ≤ h.cursor → step_forward h ≡ some (h, false)
unfolding step_forward
step_forward-end h le = ground arith

-- Stepping forward keeps the harness in step with its log, and says whether there was an event
-- left; then the cursor has moved by one, else nothing has changed.
pub step_forward-IsSynced :
    (h h' : SimulationHarness) (more : Bool)
    → IsSynced h
    → step_forward h ≡ some (h', more)
    → IsSynced h'
      × (h'.log ≡ h.log)
      × (((more ≡ true) × (h'.cursor ≡ suc h.cursor))
          ⊎ ((more ≡ false) × (h' ≡ h) × (h.cursor ≡ length h.log)))
step_forward-IsSynced h h' more v q = elim (dec_lt h.cursor (length h.log)) [
  | no ge ↦
      let stop = step_forward-end h (omega arith) in
      let same : h ≡ h' = cc in
      (subst IsSynced same v, ap (λ k. k.log) (sym same), inr (cc, sym same, omega arith))
  | yes lt ↦
      let (e, g) = get_elem?-lt h.log h.cursor lt in
      elim (step_forward-lt h lt g) [
        | inl (p, r) ↦ absurd (cc)
        | inr (s, p, r) ↦
            let next = hydrate-take-suc h.log h.cursor g v.replayed in
            let same : record h { state = s; cursor = h.cursor + 1 } ≡ h' = cc in
            (
              subst IsSynced same
                  (record { within = omega arith; replayed = rw add-one (next ∙ p) }),
              ap (λ k. k.log) (sym same),
              inl (cc, ground arith),
            )
      ]
]

-- Where the loop ends: at the end of the log in the state of the whole log, or in its panic.
abbrev pub at_end : SimulationHarness → Option GameState → Outcome (Unit {0}) SimulationHarness
at_end h none = panic
at_end h (some s) = ok (record h { cursor = length h.log; state = s })

module _ (fuel : ℕ) (h : SimulationHarness) where
  run_loop-stop : step_forward h ≡ some (h, false) → run_loop (suc fuel) h ≡ ok h
  unfolding run_loop
  run_loop-stop q = rw (q, run_loop)

  run_loop-panic : step_forward h ≡ none → run_loop (suc fuel) h ≡ panic
  unfolding run_loop
  run_loop-panic q = rw (q, run_loop)

  run_loop-next :
      (h' : SimulationHarness)
      → step_forward h ≡ some (h', true)
      → run_loop (suc fuel) h ≡ run_loop fuel h'
  unfolding run_loop
  run_loop-next h' q = rw (q, run_loop)

hydrate-take-none : (l : List GameEvent) (i : ℕ) → hydrate (take i l) ≡ none → hydrate l ≡ none
unfolding hydrate
hydrate-take-none l i h = fold_events-take default i l h

run_loop_lem :
    (left : ℕ) (h : SimulationHarness)
    → h.cursor + left ≡ length h.log
    → IsSynced h
    → run_loop (suc left) h ≡ at_end h (hydrate h.log)
run_loop_lem zero h e v =
    let at : h.cursor ≡ length h.log = omega arith in
    let whole : hydrate h.log ≡ some h.state =
      ap hydrate (sym (take-length h.log))
      ∙ subst (λ n. hydrate (take n h.log) ≡ some h.state) at v.replayed in
    run_loop-stop zero h (step_forward-end h (omega arith))
    ∙ rw whole (ap ok (λ i. record h { cursor = at i }))
run_loop_lem (suc left) h e v =
    let lt : h.cursor < length h.log = omega arith in
    let (ev, g) = get_elem?-lt h.log h.cursor lt in
    let next = hydrate-take-suc h.log h.cursor g v.replayed in
    elim (step_forward-lt h lt g) [
      | inl (p, r) ↦
          run_loop-panic (suc left) h r
          ∙ ap (at_end h) (sym (hydrate-take-none h.log (suc h.cursor) (next ∙ p)))
      | inr (s, p, r) ↦
          run_loop-next (suc left) h _ r
          ∙ run_loop_lem left (record h { state = s; cursor = h.cursor + 1 }) (omega arith)
              (record { within = omega arith; replayed = rw add-one (next ∙ p) })
    ]

-- `run_to_end` ends, for every harness that is in step: at the end of the log in the state that
-- the whole log hydrates to, or in the panic that hydrating the log runs into.
pub run_to_end_lem : (h : SimulationHarness) → IsSynced h → run_to_end h ≡ at_end h (hydrate h.log)
unfolding run_to_end
run_to_end_lem h v = run_loop_lem (length h.log - h.cursor) h (omega arith) v

-- In step with a log, at a position of it.
abbrev pub IsAt : List GameEvent → ℕ → SimulationHarness → Type 0
IsAt l i h = IsSynced h × (h.log ≡ l) × (h.cursor ≡ i)

-- A harness made from a log, wherever it is positioned, is in step with that log, as is one that
-- is rewound; the position is the wanted one, or the end of a shorter log.
pub from_log_up_to-IsSynced :
    (l : List GameEvent) (n : ℕ) (h : SimulationHarness)
    → from_log_up_to l n ≡ some h
    → IsAt l (min n (length l)) h
unfolding from_log_up_to
from_log_up_to-IsSynced l n h q = elim (Option-cases (hydrate (take (min n (length l)) l))) [
  | inl p ↦ absurd (cc)
  | inr (s, p) ↦
      let same : record { log = l; cursor = min n (length l); state = s } ≡ h = ground arith in
      subst (IsAt l (min n (length l))) same
        (record { within = omega arith; replayed = p }, refl, refl)
]

pub from_log-IsSynced :
    (l : List GameEvent) (h : SimulationHarness) → from_log l ≡ some h → IsAt l (length l) h
unfolding from_log
from_log-IsSynced l h q = elim (Option-cases (hydrate l)) [
  | inl p ↦ absurd (cc)
  | inr (s, p) ↦
      let same : record { log = l; cursor = length l; state = s } ≡ h = ground arith in
      subst (IsAt l (length l)) same
        (record { within = omega arith; replayed = ap hydrate (take-length l) ∙ p }, refl, refl)
]

pub rewind_to-IsSynced :
    (h h' : SimulationHarness) (n : ℕ)
    → rewind_to h n ≡ some h'
    → IsAt h.log (min n (length h.log)) h'
unfolding rewind_to from_log_up_to
rewind_to-IsSynced h h' n q = from_log_up_to-IsSynced h.log n h' q
