-- ===== src/Hub/Flights.antt =====
-- src/fin_data_hub/cache.py, `MemoryCache.get_or_load` with `_join_flight` and `_finish_flight`: threads
-- that ask for one key. A step is what one thread does between two points where another may run: one
-- method under the lock, the call of the loader, or the end of the wait. The cache's `get` and `put` at
-- the key are the arguments `look` and `store`. A flight is a number, which stands for the object that
-- its followers share; its outcome is in `done` once the event is set.
pub mod Moves
pub mod Single
pub mod Wakes
use fin_data_platform.Prelude.{ℕ, ◌+◌, Bool, true, false, Option, none, some, List, [], ◌∷◌, nat_eq}
use fin_data_platform.Dict.{Dict, get, put}

-- What a call of the loader gives
pub data Loaded {ℓ κ} (V : Type ℓ) (E : Type κ) : Type (ℓ ⊔ κ) where
  loaded : V → Loaded V E
  failed : E → Loaded V E

-- Where a thread stands in `get_or_load`. `starting` holds `force`.
pub data Phase {ℓ κ} (V : Type ℓ) (E : Type κ) : Type (ℓ ⊔ κ) where
  starting : Bool → Phase V E
  joining checking loading : Phase V E
  waiting : ℕ → Phase V E
  storing : V → Phase V E
  finishing : Loaded V E → Phase V E
  announcing : ℕ → Loaded V E → Phase V E
  returned : Loaded V E → Phase V E

pub record System {ℓ κ μ} (V : Type ℓ) (E : Type κ) (Cache : Type μ) : Type (ℓ ⊔ κ ⊔ μ) where
  pub threads : Dict ℕ (Phase V E)
  pub flight : Option ℕ
  pub next : ℕ
  pub done : Dict ℕ (Loaded V E)
  pub cache : Cache

module _ {ℓ κ μ} {V : Type ℓ} {E : Type κ} {Cache : Type μ} where
  abbrev pub at : ℕ → Phase V E → System V E Cache → System V E Cache
  at thread phase s = record s { threads = put thread phase s.threads }

  -- `_join_flight`: the first thread leads, the others wait.
  abbrev pub join_flight : ℕ → System V E Cache → System V E Cache
  join_flight thread s = elim s.flight [
    | none ↦ at thread checking (record s { flight = some s.next; next = s.next + 1 })
    | some id ↦ at thread (waiting id) s
  ]

  -- `_finish_flight` up to the end of its lock: the open flight is taken out, whoever opened it. What
  -- follows is the phase `announcing`.
  abbrev pub finish_flight : ℕ → Loaded V E → System V E Cache → System V E Cache
  finish_flight thread result s = elim s.flight [
    | none ↦ at thread (returned result) s
    | some id ↦ at thread (announcing id result) (record s { flight = none })
  ]

  module _ (look : Cache → Option V × Cache) (store : V → Cache → Cache) where
    -- What a thread in this phase does; `outcome` is what the loader gives it.
    unfoldable pub act : ℕ → Loaded V E → Phase V E → System V E Cache → System V E Cache
    act thread outcome (starting true) s = at thread loading s
    act thread outcome (starting false) s =
        let (found, cache) = look s.cache in
        elim found [
          | some value ↦ at thread (returned (loaded value)) (record s { cache = cache })
          | none ↦ at thread joining (record s { cache = cache })
        ]
    act thread outcome joining s = join_flight thread s
    act thread outcome (waiting id) s = elim (get id s.done) [
      | none ↦ s
      | some result ↦ at thread (returned result) s
    ]
    act thread outcome checking s =
        let (found, cache) = look s.cache in
        elim found [
          | some value ↦ at thread (finishing (loaded value)) (record s { cache = cache })
          | none ↦ at thread loading (record s { cache = cache })
        ]
    act thread (loaded value) loading s = at thread (storing value) s
    act thread (failed error) loading s = at thread (finishing (failed error)) s
    act thread outcome (storing value) s =
        at thread (finishing (loaded value)) (record s { cache = store value s.cache })
    act thread outcome (finishing result) s = finish_flight thread result s
    act thread outcome (announcing id result) s =
        at thread (returned result) (record s { done = put id result s.done })
    act thread outcome (returned result) s = s

    -- A step of a thread; a thread that waits for a flight that is not done, and one that has returned,
    -- stand still.
    unfoldable pub step : ℕ → Loaded V E → System V E Cache → System V E Cache
    unfolding act
    step thread outcome s = elim (get thread s.threads) [
      | none ↦ s
      | some phase ↦ act thread outcome phase s
    ]

    -- An interleaving is the list of the threads that step, each with what its loader would give.
    unfoldable pub run : List (ℕ × Loaded V E) → System V E Cache → System V E Cache
    unfolding step
    run [] s = s
    run ((thread, outcome) ∷ steps) s = run steps (step thread outcome s)

-- From winning the flight until it is finished
abbrev pub leads {ℓ κ} : {V : Type ℓ} {E : Type κ} → Phase V E → Bool
leads checking = true
leads loading = true
leads (storing value) = true
leads (finishing result) = true
leads phase = false

abbrev pub loads {ℓ κ} : {V : Type ℓ} {E : Type κ} → Phase V E → Bool
loads loading = true
loads phase = false

abbrev pub is_forced {ℓ κ} : {V : Type ℓ} {E : Type κ} → Phase V E → Bool
is_forced (starting forced) = forced
is_forced phase = false
