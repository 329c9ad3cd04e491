-- ===== src/Checks/Flights.antt =====
-- The theorems on `get_or_load` of src/fin_data_hub/cache.py at threads that ask for one key, and what
-- a forced call does to them.
use fin_data_platform.Prelude.{
  ℕ, ◌≤◌, ◌≡◌, ◌≢◌, arith, refl, Bool, true, false, ◌||◌, String, Option, none, some, [], ◌∷◌,
  nat_eq, filter, length,
}
use fin_data_platform.Dict.{get, put, values}
use fin_data_platform.Hub.Flights.{
  Loaded, loaded, failed, starting, waiting, returned, System, act, step, run, leads, loads,
}
use fin_data_platform.Hub.Flights.Single.{run-loads}
use fin_data_platform.Hub.Flights.Wakes.{Someone, announces, run-waiting}

-- A cache that holds a value for the key, or none
abbrev look : Option String → Option String × Option String
look held = (held, held)

abbrev store : String → Option String → Option String
store value held = some value

abbrev begin : Bool → System String String (Option String)
begin third = record {
  threads = (1, starting false) ∷ (2, starting false) ∷ (3, starting third) ∷ [];
  flight = none;
  next = 0;
  done = [];
  cache = none;
}

abbrev one : ℕ × Loaded String String
one = (1, loaded "rows")

abbrev two : ℕ × Loaded String String
two = (2, loaded "other")

abbrev three : ℕ × Loaded String String
three = (3, failed "down")

none_waits : (other flight : ℕ) → get other (begin true).threads ≢ some (waiting flight)
unfolding get
none_waits other flight h = ground arith

-- The second thread gets what the first one loads.
followed :
    get 2
      (run look store
        (one ∷ two ∷ one ∷ two ∷ one ∷ one ∷ one ∷ one ∷ one ∷ two ∷ [])
        (begin false)).threads
    ≡ some (returned (loaded "rows"))
unfolding run step act get put
followed = refl

-- A forced call that fails ends the flight of another thread, whose follower gets its error.
forced_failure :
    get 2
      (run look store
        (one ∷ two ∷ one ∷ two ∷ three ∷ three ∷ three ∷ three ∷ two ∷ [])
        (begin true)).threads
    ≡ some (returned (failed "down"))
unfolding run step act get put
forced_failure = refl

run-loads_example :
    length
      (filter loads (values (run look store (one ∷ two ∷ one ∷ one ∷ []) (begin false)).threads))
    ≤ 1
run-loads_example =
    run-loads look store (one ∷ two ∷ one ∷ one ∷ []) (begin false) refl (refl, (refl, (refl, tt)))

run-waiting_example :
    Someone
      (λ phase. leads phase || announces 0 phase)
      (run look store (one ∷ two ∷ one ∷ two ∷ []) (begin true))
unfolding run step act get put
run-waiting_example =
    run-waiting look store (one ∷ two ∷ one ∷ two ∷ []) (begin true) 2 0 refl none_waits refl refl
