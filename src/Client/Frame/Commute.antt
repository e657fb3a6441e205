-- ===== src/Client/Frame/Commute.antt =====
-- client/src/main.rs: systems that can change places.
use mathlib.Core.List
use tic_tac_tussle.Base.{
  ◌≡◌, refl, ap, sym, subst, ◌∙◌, inl, inr, some, none, Option-cases, List, [], ◌∷◌,
}
use tic_tac_tussle.State.{PlayerId}
use tic_tac_tussle.State.Pair.{PlayerPair}
use tic_tac_tussle.Client.{Client}
use tic_tac_tussle.Client.Frame.{App, System, run_systems}
use tic_tac_tussle.Client.Frame.Keeps.{All, All-Permᴰ}

-- The client knows its id and its pair.
abbrev pub IsSettled : Client → Type 0
IsSettled c =
    ((id : PlayerId) × (c.local_player_id ≡ some id))
    × ((pair : PlayerPair) × (c.maybe_pair ≡ some pair))

module _ {F K : Type 0} where
  abbrev pub then_run : System F K → System F K → System F K
  then_run f g a = elim (f a) [ some b ↦ g b | none ↦ none ]

  -- A system that returns leaves the client's id and pair as they are.
  abbrev pub Settles : System F K → Type 0
  Settles f = (a b : App F K) → IsSettled a.client → f a ≡ some b → IsSettled b.client

  abbrev pub Commute : System F K → System F K → Type 0
  Commute f g = (a : App F K) → IsSettled a.client → then_run f g a ≡ then_run g f a

  -- A system that has nothing left to do.
  abbrev pub IsIdle : System F K → Type 0
  IsIdle f = (a : App F K) → IsSettled a.client → f a ≡ some a

  pub idle-Commute : (f g : System F K) → IsIdle f → Settles g → Commute f g
  idle-Commute f g idle settles a h = elim (Option-cases (g a)) [
    | inl stuck ↦ rw (then_run, idle a h, stuck) refl
    | inr (b, run) ↦ rw (then_run, idle a h, run) (sym (idle b (settles a b h run)))
  ]

  -- A system that only draws.
  pub drawing-Settles :
      (f : App F K → App F K)
      → ((a : App F K) → (f a).client ≡ a.client)
      → Settles (λ a. some (f a))
  drawing-Settles f same a b h run =
      let there : f a ≡ b = cc in
      subst {A = App F K} (λ x. IsSettled x.client) there (subst IsSettled (sym (same a)) h)

  run_systems-two :
      (f g : System F K) (l : List (System F K)) (a : App F K)
      → run_systems (f ∷ (g ∷ l)) a ≡ then_run (then_run f g) (run_systems l) a
  unfolding run_systems
  run_systems-two f g l a = elim (Option-cases (f a)) [
    | inl stuck ↦ rw (run_systems, then_run, stuck) refl
    | inr (b, run) ↦ rw (run_systems, then_run, run) refl
  ]

  pub flip : (f g : System F K) → Commute f g → Commute g f
  flip f g c a h = sym (c a h)

  pub All-map :
      (P Q : System F K → Type 0) (l : List (System F K))
      → ((f : System F K) → P f → Q f)
      → All P l
      → All Q l
  All-map P Q [] h a = tt
  All-map P Q (f ∷ l) h (p, a) = (h f p, All-map P Q l h a)

  -- Any two of the systems can change places.
  abbrev pub AllCommute : List (System F K) → Type 0
  AllCommute l = All Settles l × All (λ f. All (Commute f) l) l

  AllCommute-Permᴰ : {l k : List (System F K)} → List.Permᴰ l k → AllCommute k → AllCommute l
  AllCommute-Permᴰ {l} {k} p (settle, c) = (
    All-Permᴰ Settles p settle,
    All-Permᴰ (λ f. All (Commute f) l) p
        (All-map (λ f. All (Commute f) k) (λ f. All (Commute f) l) k (λ f. All-Permᴰ (Commute f) p)
          c),
  )

  pub run_systems-Permᴰ :
      {l k : List (System F K)}
      → List.Permᴰ l k
      → AllCommute k
      → (a : App F K) → IsSettled a.client
      → run_systems l a ≡ run_systems k a
  unfolding run_systems
  run_systems-Permᴰ List.Permᴰ.nil c a h = refl
  run_systems-Permᴰ (List.Permᴰ.cons {b = g} {l₁ = l} {l₂ = k} e p) ((settles, settle), (row, c)) a
        h =
      ap (λ f. run_systems (f ∷ l) a) e ∙ elim (Option-cases (g a)) [
        | inl stuck ↦ rw (run_systems, stuck) refl
        | inr (b, run) ↦
            let smaller =
              All-map (λ f. All (Commute f) (g ∷ k)) (λ f. All (Commute f) k) k (λ f r. r.1) c in
            rw (run_systems, run) (run_systems-Permᴰ p (settle, smaller) b (settles a b h run))
      ]
  run_systems-Permᴰ (List.Permᴰ.swap {b = t} {a' = f} {b' = g} {l = l} e q)
        (settle, ((x, (y, z)), c)) a h =
      ap (λ x. run_systems (x ∷ (t ∷ l)) a) e
      ∙ (ap (λ x. run_systems (g ∷ (x ∷ l)) a) q
          ∙ (run_systems-two g f l a
              ∙ (ap (λ r. elim r [ some b ↦ run_systems l b | none ↦ none ]) (sym (y a h))
                  ∙ sym (run_systems-two f g l a))))
  run_systems-Permᴰ (List.Permᴰ.trans p q) c a h =
      run_systems-Permᴰ p (AllCommute-Permᴰ q c) a h ∙ run_systems-Permᴰ q c a h
