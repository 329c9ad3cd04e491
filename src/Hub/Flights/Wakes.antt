-- ===== src/Hub/Flights/Wakes.antt =====
-- No wake-up is lost: who waits for a flight that is not done has a thread that will finish it.
use fin_data_platform.Prelude.{
  ℕ, ◌+◌, ◌≡◌, ◌≢◌, ◌⊎◌, refl, sym, ap, subst, inl, inr, Bool, true, false, ◌||◌, Option, none,
  some, List, [], ◌∷◌, nat_eq, arith, Bool-cases, Option-cases, some_injective, ◌∙◌,
}
use fin_data_platform.Dict.{get, put, has}
use fin_data_platform.Dict.Laws.{get-put}
use fin_data_platform.Hub.Flights.Moves.{
  Move, stays, quiet, forces, opens, joins, ends, unheard, tells, act-Move, is_announcing,
  is_waiting,
}
use fin_data_platform.Hub.Flights.{
  Loaded, Phase, starting, joining, checking, loading, waiting, finishing, announcing, returned,
  System, at, act, step, run, leads,
}

-- Is about to set the event of the flight
abbrev pub announces {ℓ κ} : {V : Type ℓ} {E : Type κ} → ℕ → Phase V E → Bool
announces id (announcing other result) = nat_eq.beq other id
announces id phase = false

announces→is_announcing {ℓ κ} :
    {V : Type ℓ} {E : Type κ} (id : ℕ) (phase : Phase V E)
    → announces id phase ≡ true
    → is_announcing phase ≡ true
announces→is_announcing id (announcing other result) h = refl
announces→is_announcing id phase h = absurd (cc)

module _ {ℓ κ μ} {V : Type ℓ} {E : Type κ} {Cache : Type μ} where
  -- A thread in a phase that passes the test
  abbrev pub Someone : (Phase V E → Bool) → System V E Cache → Type (ℓ ⊔ κ)
  Someone p s =
      (thread : ℕ) × (phase : Phase V E) × (get thread s.threads ≡ some phase) × (p phase ≡ true)

  -- The flight is done, or open, or a thread is about to set its event.
  abbrev Served : ℕ → System V E Cache → Type (ℓ ⊔ κ)
  Served id s = (has id s.done ≡ true) ⊎ (s.flight ≡ some id) ⊎ Someone (announces id) s

  record Wakes (s : System V E Cache) : Type (ℓ ⊔ κ) where
    led : (id : ℕ) → s.flight ≡ some id → Someone leads s
    served : (thread id : ℕ) → get thread s.threads ≡ some (waiting id) → Served id s

  -- A thread that moves leaves the others where they are.
  Someone-at :
      (p : Phase V E → Bool) (thread : ℕ) (old new : Phase V E) (s s' : System V E Cache)
      → get thread s.threads ≡ some old
      → s'.threads ≡ s.threads
      → (p old ≡ true → p new ≡ true)
      → Someone p s
      → Someone p (at thread new s')
  Someone-at p thread old new s s' e same keeps (u, phase, there, passes) =
      elim (Bool-cases (nat_eq.beq thread u)) [
        | inl t ↦
            let here : get u s.threads ≡ some old =
              subst (λ x. get x s.threads ≡ some old) ((nat_eq.beq_iff thread u).0 t) e in
            let is_old : phase ≡ old = some_injective (sym there ∙ here) in
            (
              u,
              new,
              ground (arith, get-put thread u new s'.threads),
              keeps (subst (λ q. p q ≡ true) is_old passes),
            )
        | inr f ↦
            (u, phase, ground (arith, get-put thread u new s'.threads, ap (get u) same), passes)
      ]

  Someone-new :
      (p : Phase V E → Bool) (thread : ℕ) (new : Phase V E) (s' : System V E Cache)
      → p new ≡ true
      → Someone p (at thread new s')
  Someone-new p thread new s' passes =
      (thread, new, ground (arith, get-put thread thread new s'.threads), passes)

  -- What was waited for before the step.
  waiting_before :
      (thread u id : ℕ) (new : Phase V E) (s s' : System V E Cache)
      → s'.threads ≡ s.threads
      → get u (at thread new s').threads ≡ some (waiting id)
      → (new ≡ waiting id) ⊎ (get u s.threads ≡ some (waiting id))
  waiting_before thread u id new s s' same h = elim (Bool-cases (nat_eq.beq thread u)) [
    | inl t ↦ inl (some_injective (sym (ground (arith, get-put thread u new s'.threads)) ∙ h))
    | inr f ↦ inr (ground (arith, get-put thread u new s'.threads, ap (get u) same))
  ]

  module _ (thread : ℕ) (old new : Phase V E) (s s' : System V E Cache)
      (e : get thread s.threads ≡ some old) (same : s'.threads ≡ s.threads) (wakes : Wakes s) where
    Served-at :
        (id : ℕ)
        → (s.flight ≡ some id → (s'.flight ≡ some id) ⊎ (announces id new ≡ true))
        → (has id s.done ≡ true → has id s'.done ≡ true)
        → (announces id old ≡ true → (announces id new ≡ true) ⊎ (has id s'.done ≡ true))
        → Served id s
        → Served id (at thread new s')
    Served-at id flies keeps told (inl done) = inl (keeps done)
    Served-at id flies keeps told (inr (inl flight)) = elim (flies flight) [
      | inl f ↦ inr (inl f)
      | inr a ↦ inr (inr (Someone-new (announces id) thread new s' a))
    ]
    Served-at id flies keeps told (inr (inr (u, phase, there, passes))) =
        elim (Bool-cases (announces id new)) [
          | inl t ↦ inr (inr (Someone-new (announces id) thread new s' t))
          | inr f ↦ elim (Bool-cases (announces id old)) [
            | inl o ↦ elim (told o) [ inl t ↦ absurd (cc) | inr d ↦ inl d ]
            | inr o ↦ inr (
                inr (
                  Someone-at (announces id) thread old new s s' e same (λ h. absurd (cc))
                    (u, phase, there, passes)))
          ]
        ]

    Wakes-at :
        ((id : ℕ) → s'.flight ≡ some id → Someone leads (at thread new s'))
        → ((id : ℕ) → s.flight ≡ some id → (s'.flight ≡ some id) ⊎ (announces id new ≡ true))
        → ((id : ℕ) → has id s.done ≡ true → has id s'.done ≡ true)
        → ((id : ℕ) → announces id old ≡ true → (announces id new ≡ true) ⊎ (has id s'.done ≡ true))
        → ((id : ℕ) → new ≡ waiting id → s'.flight ≡ some id)
        → Wakes (at thread new s')
    Wakes-at leader flies keeps told joined = record {
      led = leader;
      served = λ u id h. elim (waiting_before thread u id new s s' same h) [
        | inl w ↦ inr (inl (joined id w))
        | inr before ↦ Served-at id (flies id) (keeps id) (told id) (wakes.served u id before)
      ];
    }

  Wakes-Move :
      (thread : ℕ) (old : Phase V E) (s s' : System V E Cache)
      → Move thread s old s'
      → get thread s.threads ≡ some old
      → Wakes s
      → Wakes s'
  Wakes-Move thread old s s' stays e wakes = wakes
  Wakes-Move thread old s s' (quiet new cache same silent free calm) e wakes =
      let t = record s { cache = cache } in
      Wakes-at thread old new s t e refl wakes
        (λ id f. Someone-at leads thread old new s t e refl (λ h. same ∙ h) (wakes.led id f))
        (λ id f. inl f) (λ id h. h) (λ id h. absurd (cc (announces→is_announcing id old h)))
        (λ id w. absurd (cc (ap is_waiting w)))
  Wakes-Move thread old s s' forces e wakes =
      Wakes-at thread (starting true) loading s s e refl wakes
        (λ id f. Someone-new leads thread loading s refl) (λ id f. inl f) (λ id h. h)
        (λ id h. absurd (cc)) (λ id h. absurd (cc))
  Wakes-Move thread old s s' (opens idle) e wakes =
      let t = record s { flight = some s.next; next = s.next + 1 } in
      Wakes-at thread joining checking s t e refl wakes
        (λ id f. Someone-new leads thread checking t refl) (λ id f. absurd (cc)) (λ id h. h)
        (λ id h. absurd (cc)) (λ id h. absurd (cc))
  Wakes-Move thread old s s' (joins {id} flight) e wakes =
      Wakes-at thread joining (waiting id) s s e refl wakes
        (λ i f.
          Someone-at leads thread joining (waiting id) s s e refl (λ h. absurd (cc))
            (wakes.led i f))
        (λ i f. inl f) (λ i h. h) (λ i h. absurd (cc)) (λ i h. flight ∙ ground arith)
  Wakes-Move thread old s s' (ends {id} {result} flight) e wakes =
      Wakes-at thread (finishing result) (announcing id result) s (record s { flight = none }) e
        refl wakes (λ i f. absurd (cc)) (λ i f. inr (ground (arith, flight, f))) (λ i h. h)
        (λ i h. absurd (cc)) (λ i h. absurd (cc))
  Wakes-Move thread old s s' (unheard {result} idle) e wakes =
      Wakes-at thread (finishing result) (returned result) s s e refl wakes (λ i f. absurd (cc))
        (λ i f. inl f) (λ i h. h) (λ i h. absurd (cc)) (λ i h. absurd (cc))
  Wakes-Move thread old s s' (tells {id} {result}) e wakes =
      let t = record s { done = put id result s.done } in
      Wakes-at thread (announcing id result) (returned result) s t e refl wakes
        (λ i f.
          Someone-at leads thread (announcing id result) (returned result) s t e refl
            (λ h. absurd (cc)) (wakes.led i f))
        (λ i f. inl f) (λ i h. ground (arith, get-put id i result s.done))
        (λ i h. inr (ground (arith, get-put id i result s.done))) (λ i h. absurd (cc))

  module _ (look : Cache → Option V × Cache) (store : V → Cache → Cache) where
    Wakes-step :
        (thread : ℕ) (outcome : Loaded V E) (s : System V E Cache)
        → Wakes s
        → Wakes (step look store thread outcome s)
    unfolding step
    Wakes-step thread outcome s wakes = elim (Option-cases (get thread s.threads)) [
      | inl e ↦ rw (step, e) wakes
      | inr (phase, e) ↦
          rw (step, e)
            (Wakes-Move thread phase s (act look store thread outcome phase s)
              (act-Move look store thread s outcome phase) e wakes)
    ]

    Wakes-run :
        (steps : List (ℕ × Loaded V E)) (s : System V E Cache)
        → Wakes s
        → Wakes (run look store steps s)
    unfolding run
    Wakes-run [] s wakes = wakes
    Wakes-run ((thread, outcome) ∷ steps) s wakes =
        Wakes-run steps (step look store thread outcome s) (Wakes-step thread outcome s wakes)

-- Forced calls included: however threads that call `get_or_load` for one key interleave, from a state
-- without an open flight in which none of them waits, while a thread waits for a flight whose event is
-- not set, some thread leads a flight or is about to set the event of that one.
pub run-waiting {ℓ κ μ} :
    {V : Type ℓ} {E : Type κ} {Cache : Type μ} (look : Cache → Option V × Cache)
    (store : V → Cache → Cache) (steps : List (ℕ × Loaded V E)) (s : System V E Cache)
    (thread id : ℕ)
    → s.flight ≡ none
    → ((other flight : ℕ) → get other s.threads ≢ some (waiting flight))
    → get thread (run look store steps s).threads ≡ some (waiting id)
    → has id (run look store steps s).done ≡ false
    → Someone (λ phase. leads phase || announces id phase) (run look store steps s)
run-waiting look store steps s thread id idle nobody waits unset =
    let start : Wakes s = record {
      led = λ i f. absurd (cc (sym idle ∙ f));
      served = λ u i h. absurd (nobody u i h);
    } in
    let wakes = Wakes-run look store steps s start in
    elim (wakes.served thread id waits) [
      | inl done ↦ absurd (cc)
      | inr (inl f) ↦
          let (u, phase, there, leading) = wakes.led id f in (u, phase, there, rw leading refl)
      | inr (inr (u, phase, there, telling)) ↦ (u, phase, there, rw telling (ground arith))
    ]
