-- ===== src/Runtime/Scheduler/Ticks.antt =====
-- What a round of the scheduler emits.
use fin_data_platform.Prelude.{
  ◌≡◌, refl, String, Bool, true, false, inl, inr, Option, none, some, List, [], ◌∷◌, ◌++◌, map,
  string_eq, arith, or_else, if◌then◌else◌, All, Bool-cases, Option-cases, nat_eq, sym, ◌∙◌,
}
use fin_data_platform.Dict.{values}
use fin_data_platform.Outcome.{ok}
use fin_data_platform.Runtime.Keys.{
  Payload, is_versioned, is_given, validate_version_dimension, job_key,
}
use fin_data_platform.Runtime.Models.{DateTime, Date, JobIntent}
use fin_data_platform.Runtime.Repository.{payload}
use fin_data_platform.Runtime.Registry.{
  TaskSpec, TaskRegistry, intent, version_of, version_provider_missing, version_provider_unexpected,
  missing_parents, provider_complaints, complaints,
}
use fin_data_platform.Runtime.Scheduler.{
  SchedulerHealth, DueProvider, is_selected, window_intent, collect, tick,
}

-- What the version providers owe: a text that is not empty.
abbrev pub Provides : TaskSpec → Type 0
Provides spec =
    (p : Unit {0} → Option String) → spec.version_provider ≡ some p → is_given (p tt) ≡ true

abbrev pub HasKey : (Payload → String) → JobIntent → Type 0
HasKey digest i = (key : String) × (job_key digest (payload i) ≡ ok key)

append-empty : {A : Type 0} (xs ys : List A) → xs ++ ys ≡ [] → (xs ≡ []) × (ys ≡ [])
append-empty [] ys h = (refl, h)
append-empty (x ∷ xs) ys h = absurd (ground arith)

accepted :
    (kind : String) (v : Option String)
    → is_versioned kind ≡ is_given v
    → validate_version_dimension kind v ≡ ok tt
unfolding validate_version_dimension
accepted kind v h = ground arith

-- A task without complaint, whose provider keeps its promise, gives a version exactly on the
-- versioned kinds.
version_given :
    (spec : TaskSpec)
    → provider_complaints spec ≡ []
    → Provides spec
    → is_versioned spec.kind ≡ is_given (version_of spec)
unfolding is_given
version_given spec h p = elim (Option-cases spec.version_provider) [
  | inl e ↦
      rw (e, version_of) (unversioned (is_versioned spec.kind) (rw (e, provider_complaints) at h))
  | inr (q, e) ↦
      rw (e, version_of)
        (versioned (is_versioned spec.kind) (rw (e, provider_complaints) at h) ∙ sym (p q e))
]
  where
    unversioned :
        (b : Bool) → (if b then version_provider_missing spec.job_id ∷ [] else []) ≡ [] → b ≡ false
    unversioned true h = absurd (ground arith)
    unversioned false h = refl

    versioned :
        (b : Bool)
        → (if b then [] else version_provider_unexpected spec.job_id ∷ []) ≡ []
        → b ≡ true
    versioned true h = refl
    versioned false h = absurd (ground arith)

module _ (digest : Payload → String) where
  intent-HasKey :
      (spec : TaskSpec) (window : Date × Date)
      → provider_complaints spec ≡ []
      → Provides spec
      → HasKey digest (window_intent spec window)
  unfolding job_key intent
  intent-HasKey spec (start, end) h p = (
    digest (payload (window_intent spec (start, end))),
    rw (accepted spec.kind (version_of spec) (version_given spec h p)) refl,
  )

  intents-HasKey :
      (spec : TaskSpec) (windows : List (Date × Date))
      → provider_complaints spec ≡ []
      → Provides spec
      → All (HasKey digest) (map (window_intent spec) windows)
  intents-HasKey spec [] h p = tt
  intents-HasKey spec (w ∷ ws) h p = (intent-HasKey spec w h p, intents-HasKey spec ws h p)

  All-append :
      (xs ys : List JobIntent)
      → All (HasKey digest) xs
      → All (HasKey digest) ys
      → All (HasKey digest) (xs ++ ys)
  All-append [] ys p q = q
  All-append (x ∷ xs) ys (px, p) q = (px, All-append xs ys p q)

  collect-HasKey :
      (tasks : TaskRegistry) (due : DueProvider) (moment : DateTime) (only : Option (List String))
      (specs : List TaskSpec)
      → complaints tasks specs ≡ []
      → All Provides specs
      → All (HasKey digest) (collect due moment only specs)
  unfolding complaints collect
  collect-HasKey tasks due moment only [] h p = tt
  collect-HasKey tasks due moment only (spec ∷ specs) h (ps, p) =
      let (h', h'') =
        append-empty
          (missing_parents tasks spec.job_id spec.dependencies ++ provider_complaints spec)
          (complaints tasks specs) h in
      let (_, clean) =
        append-empty (missing_parents tasks spec.job_id spec.dependencies)
          (provider_complaints spec) h' in
      let rest : All (HasKey digest) (collect due moment only specs) =
        collect-HasKey tasks due moment only specs h'' p in
      elim (Bool-cases (is_selected only spec)) [
        | inl t ↦ rw t (
            All-append (map (window_intent spec) (due spec moment)) (collect due moment only specs)
              (intents-HasKey spec (due spec moment) clean ps) rest)
        | inr t ↦ rw t rest
      ]

  -- On a registry that `validate` has no complaint about, and whose version providers give a text that
  -- is not empty, every intent of a round has a job key: its submission raises no ValueError.
  pub tick-HasKey :
      (tasks : TaskRegistry) (due_provider : Option DueProvider) (now : Option DateTime)
      (clock : DateTime) (only : Option (List String)) (health : SchedulerHealth)
      → complaints tasks (values tasks) ≡ []
      → All Provides (values tasks)
      → All (HasKey digest) (tick tasks due_provider now clock only health).0
  unfolding tick
  tick-HasKey tasks none now clock only health h p = tt
  tick-HasKey tasks (some due) now clock only health h p =
      collect-HasKey tasks due (or_else now clock) only (values tasks) h p
