-- ===== src/Hub/Flights/Moves.antt =====
-- The kinds of steps that a thread in `get_or_load` takes.
use fin_data_platform.Prelude.{
  ℕ, ◌+◌, ◌≡◌, refl, sym, subst, inl, inr, Bool, true, false, Option, none, some, Option-cases,
  nat_eq,
}
use fin_data_platform.Dict.{get, put}
use fin_data_platform.Hub.Flights.{
  Loaded, loaded, failed, Phase, starting, joining, checking, loading, waiting, storing, finishing,
  announcing, returned, System, at, act, leads, is_forced,
}

abbrev pub is_announcing {ℓ κ} : {V : Type ℓ} {E : Type κ} → Phase V E → Bool
is_announcing (announcing id result) = true
is_announcing phase = false

abbrev pub is_waiting {ℓ κ} : {V : Type ℓ} {E : Type κ} → Phase V E → Bool
is_waiting (waiting id) = true
is_waiting phase = false

-- From a phase of the thread to the system after its step
pub data Move {ℓ κ μ} {V : Type ℓ} {E : Type κ} {Cache : Type μ} (thread : ℕ) (s : System V E Cache)
    : Phase V E → System V E Cache → Type (ℓ ⊔ κ ⊔ μ) where
  stays : {old : Phase V E} → Move thread s old s
  -- no flight is opened or ended
  quiet :
      {old : Phase V E} (new : Phase V E) (cache : Cache)
      → leads new ≡ leads old
      → is_announcing old ≡ false
      → is_waiting new ≡ false
      → is_forced new ≡ false
      → Move thread s old (at thread new (record s { cache = cache }))
  forces : Move thread s (starting true) (at thread loading s)
  opens :
      s.flight ≡ none
      → Move thread s joining
          (at thread checking (record s { flight = some s.next; next = s.next + 1 }))
  joins : {id : ℕ} → s.flight ≡ some id → Move thread s joining (at thread (waiting id) s)
  ends :
      {id : ℕ} {result : Loaded V E}
      → s.flight ≡ some id
      → Move thread s
          (finishing result)
          (at thread (announcing id result) (record s { flight = none }))
  unheard :
      {result : Loaded V E}
      → s.flight ≡ none
      → Move thread s (finishing result) (at thread (returned result) s)
  tells :
      {id : ℕ} {result : Loaded V E}
      → Move thread s
          (announcing id result)
          (at thread (returned result) (record s { done = put id result s.done }))

module _ {ℓ κ μ} {V : Type ℓ} {E : Type κ} {Cache : Type μ} (look : Cache → Option V × Cache)
    (store : V → Cache → Cache) (thread : ℕ) (s : System V E Cache) where
  pub act-Move :
      (outcome : Loaded V E) (phase : Phase V E)
      → Move thread s phase (act look store thread outcome phase s)
  unfolding act
  act-Move outcome (starting true) = forces
  act-Move outcome (starting false) = elim (Option-cases (look s.cache).0) [
    | inl e ↦ rw (act, e) (quiet joining (look s.cache).1 refl refl refl refl)
    | inr (value, e) ↦
        rw (act, e) (quiet (returned (loaded value)) (look s.cache).1 refl refl refl refl)
  ]
  act-Move outcome joining = elim (Option-cases s.flight) [
    | inl e ↦ subst (λ o. Move thread s joining (joined o)) (sym e) (opens e)
    | inr (id, e) ↦ subst (λ o. Move thread s joining (joined o)) (sym e) (joins e)
  ]
    where
      joined : Option ℕ → System V E Cache
      joined o = elim o [
        | none ↦ at thread checking (record s { flight = some s.next; next = s.next + 1 })
        | some id ↦ at thread (waiting id) s
      ]
  act-Move outcome (waiting id) = elim (Option-cases (get id s.done)) [
    | inl e ↦ rw (act, e) stays
    | inr (result, e) ↦ rw (act, e) (quiet (returned result) s.cache refl refl refl refl)
  ]
  act-Move outcome checking = elim (Option-cases (look s.cache).0) [
    | inl e ↦ rw (act, e) (quiet loading (look s.cache).1 refl refl refl refl)
    | inr (value, e) ↦
        rw (act, e) (quiet (finishing (loaded value)) (look s.cache).1 refl refl refl refl)
  ]
  act-Move (loaded value) loading = quiet (storing value) s.cache refl refl refl refl
  act-Move (failed error) loading = quiet (finishing (failed error)) s.cache refl refl refl refl
  act-Move outcome (storing value) =
      quiet (finishing (loaded value)) (store value s.cache) refl refl refl refl
  act-Move outcome (finishing result) = elim (Option-cases s.flight) [
    | inl e ↦ subst (λ o. Move thread s (finishing result) (finished o)) (sym e) (unheard e)
    | inr (id, e) ↦ subst (λ o. Move thread s (finishing result) (finished o)) (sym e) (ends e)
  ]
    where
      finished : Option ℕ → System V E Cache
      finished o = elim o [
        | none ↦ at thread (returned result) s
        | some id ↦ at thread (announcing id result) (record s { flight = none })
      ]
  act-Move outcome (announcing id result) = tells
  act-Move outcome (returned result) = stays
