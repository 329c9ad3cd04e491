-- ===== src/Hub/Flights/Single.antt =====
-- Without forced calls one flight has one leader, so one loader runs.
use fin_data_platform.Prelude.{
  ℕ, ◌+◌, ◌≤◌, ◌≡◌, refl, ap, inl, inr, Bool, true, false, Option, none, some, List, [], ◌∷◌,
  nat_eq, length, filter, arith, if◌then◌else◌, All, Bool-cases, Option-cases, Eq,
}
use fin_data_platform.Dict.{Dict, get, put, values}
use fin_data_platform.Hub.Flights.Moves.{
  Move, stays, quiet, forces, opens, joins, ends, unheard, tells, act-Move,
}
use fin_data_platform.Hub.Flights.{
  Loaded, Phase, starting, joining, checking, loading, waiting, finishing, announcing, returned,
  System, at, act, step, run, leads, loads, is_forced,
}

length-filter-put_present {ℓ κ} :
    {K : Type ℓ} {V : Type κ} ⦃e : Eq K⦄
    → (p : V → Bool) (k : K) (v w : V) (m : Dict K V) → get k m ≡ some w
    → length (filter p (values (put k v m))) + (if p w then 1 else 0)
      ≡ length (filter p (values m)) + (if p v then 1 else 0)
unfolding get put
length-filter-put_present p k v w [] h = absurd (ground arith)
length-filter-put_present ⦃e⦄ p k v w ((j, u) ∷ m) h = elim (Bool-cases (e.beq j k)) [
  | inl t ↦ let same : u ≡ w = ground arith in rw (t, same) (ground arith)
  | inr f ↦ rw f (ground (arith, length-filter-put_present p k v w m (ground arith)))
]

abbrev flying : Option ℕ → ℕ
flying none = 0
flying (some id) = 1

flying_le : (o : Option ℕ) → flying o ≤ 1
flying_le none = omega arith
flying_le (some id) = omega arith

abbrev one_if : Bool → ℕ
one_if b = if b then 1 else 0

module _ {ℓ κ} {V : Type ℓ} {E : Type κ} where
  loads→leads : (p : Phase V E) → loads p ≡ true → leads p ≡ true
  loads→leads loading h = refl
  loads→leads p h = absurd (cc)

  loads-le-leads : (ps : List (Phase V E)) → length (filter loads ps) ≤ length (filter leads ps)
  loads-le-leads [] = omega arith
  loads-le-leads (p ∷ ps) = elim (Bool-cases (loads p)) [
    | inl t ↦ rw (t, loads→leads p t) (omega (arith, loads-le-leads ps))
    | inr f ↦ elim (Bool-cases (leads p)) [
      | inl t ↦ rw (f, t) (omega (arith, loads-le-leads ps))
      | inr g ↦ rw (f, g) (loads-le-leads ps)
    ]
  ]

  none_of_starting :
      (p : Phase V E → Bool)
      → p (starting false) ≡ false
      → (ps : List (Phase V E)) → All (λ q. q ≡ starting false) ps
      → length (filter p ps) ≡ 0
  none_of_starting p h [] all = refl
  none_of_starting p h (q ∷ ps) (e, all) = rw (e, h) (none_of_starting p h ps all)

module _ {ℓ κ μ} {V : Type ℓ} {E : Type κ} {Cache : Type μ} where
  abbrev how_many : (Phase V E → Bool) → System V E Cache → ℕ
  how_many p s = length (filter p (values s.threads))

  -- A flight is open exactly while one thread leads, and no call is forced.
  record Single (s : System V E Cache) : Type 0 where
    leaders : how_many leads s ≡ flying s.flight
    unforced : how_many is_forced s ≡ 0

  -- A thread moves to a phase that leads as much more as flights are opened.
  Single-at :
      (thread : ℕ) (old new : Phase V E) (s s' : System V E Cache)
      → get thread s.threads ≡ some old
      → s'.threads ≡ s.threads
      → one_if (leads new) + flying s.flight ≡ one_if (leads old) + flying s'.flight
      → is_forced new ≡ false
      → Single s
      → Single (at thread new s')
  Single-at thread old new s s' e same balance calm single = record {
    leaders = omega (
      arith,
      single.leaders,
      balance,
      length-filter-put_present leads thread new old s.threads e,
      ap (λ m. length (filter leads (values (put thread new m)))) same,
    );
    unforced = omega (
      arith,
      single.unforced,
      ap one_if calm,
      length-filter-put_present is_forced thread new old s.threads e,
      ap (λ m. length (filter is_forced (values (put thread new m)))) same,
    );
  }

  none_forced :
      (thread : ℕ) (s : System V E Cache)
      → get thread s.threads ≡ some (starting true)
      → how_many is_forced s ≡ 0
      → ⊥
  none_forced thread s e h =
      omega
        (arith, h, length-filter-put_present is_forced thread joining (starting true) s.threads e)

  Single-Move :
      (thread : ℕ) (old : Phase V E) (s s' : System V E Cache)
      → Move thread s old s'
      → get thread s.threads ≡ some old
      → Single s
      → Single s'
  Single-Move thread old s s' stays e single = single
  Single-Move thread old s s' (quiet new cache same silent free calm) e single =
      Single-at thread old new s (record s { cache = cache }) e refl
        (ap (λ b. one_if b + flying s.flight) same) calm single
  Single-Move thread old s s' forces e single = absurd (none_forced thread s e single.unforced)
  Single-Move thread old s s' (opens idle) e single =
      Single-at thread joining checking s (record s { flight = some s.next; next = s.next + 1 }) e
        refl (omega (arith, ap flying idle)) refl single
  Single-Move thread old s s' (joins {id} flight) e single =
      Single-at thread joining (waiting id) s s e refl refl refl single
  Single-Move thread old s s' (ends {id} {result} flight) e single =
      Single-at thread (finishing result) (announcing id result) s (record s { flight = none }) e
        refl (omega (arith, ap flying flight)) refl single
  Single-Move thread old s s' (unheard {result} idle) e single = absurd (
      omega (
        arith,
        single.leaders,
        ap flying idle,
        length-filter-put_present leads thread (returned result) (finishing result) s.threads e,
      ))
  Single-Move thread old s s' (tells {id} {result}) e single =
      Single-at thread (announcing id result) (returned result) s
        (record s { done = put id result s.done }) e refl refl refl single

  module _ (look : Cache → Option V × Cache) (store : V → Cache → Cache) where
    Single-step :
        (thread : ℕ) (outcome : Loaded V E) (s : System V E Cache)
        → Single s
        → Single (step look store thread outcome s)
    unfolding step
    Single-step thread outcome s single = elim (Option-cases (get thread s.threads)) [
      | inl e ↦ rw (step, e) single
      | inr (phase, e) ↦
          rw (step, e)
            (Single-Move thread phase s (act look store thread outcome phase s)
              (act-Move look store thread s outcome phase) e single)
    ]

    Single-run :
        (steps : List (ℕ × Loaded V E)) (s : System V E Cache)
        → Single s
        → Single (run look store steps s)
    unfolding run
    Single-run [] s single = single
    Single-run ((thread, outcome) ∷ steps) s single =
        Single-run steps (step look store thread outcome s) (Single-step thread outcome s single)

-- However threads that call `get_or_load` for one key without `force` interleave, from a state without
-- an open flight in which each of them starts, at most one of them runs its loader at any time.
pub run-loads {ℓ κ μ} :
    {V : Type ℓ} {E : Type κ} {Cache : Type μ} (look : Cache → Option V × Cache)
    (store : V → Cache → Cache) (steps : List (ℕ × Loaded V E)) (s : System V E Cache)
    → s.flight ≡ none
    → All (λ phase. phase ≡ starting false) (values s.threads)
    → length (filter loads (values (run look store steps s).threads)) ≤ 1
run-loads look store steps s idle begins =
    let single = Single-run look store steps s (record {
      leaders =
          omega (arith, none_of_starting leads refl (values s.threads) begins, ap flying idle);
      unforced = none_of_starting is_forced refl (values s.threads) begins;
    }) in
    let s' = run look store steps s in
    let bound : flying s'.flight ≤ 1 = flying_le s'.flight in
    omega (arith, single.leaders, bound, loads-le-leads (values s'.threads))
