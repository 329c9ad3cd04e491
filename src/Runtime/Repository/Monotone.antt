-- ===== src/Runtime/Repository/Monotone.antt =====
-- What the calls on runs leave alone, and that watermarks only advance.
use fin_data_platform.Prelude.{
  ℕ, ◌+◌, ◌≤◌, ◌≡◌, refl, String, Bool, true, false, ◌&&◌, inl, inr, Option, none, some, List, [],
  ◌∷◌, arith, Option-cases, Bool-cases, any, head?, sorted, filter, nat_eq, string_eq, pair_eq,
  or_else, ltb, ◌==◌, ◌∙◌, beq→eq, eq→beq, and_left, and_right,
}
use fin_data_platform.Dict.{get, values}
use fin_data_platform.Outcome.{Outcome-cases}
use fin_data_platform.Runtime.Keys.{Payload, job_key}
use fin_data_platform.Runtime.Models.{DateTime, JobIntent, JobRun, dead, interrupted, is_running}
use fin_data_platform.Runtime.Repository.{
  Repository, payload, is_live, create_keyed, create_run, is_candidate, claim_order, claim_next,
  Finish, finish, retry, stop_with, succeed, fail, interrupt, interrupt_each, interrupt_running,
  works_for, sync_defs, sync_dependencies,
}
use fin_data_platform.Runtime.Repository.Watermarks.{
  get_watermark, advance_watermark, shown, latest, get_watermark-advance_watermark,
}
use fin_data_platform.Runtime.Repository.Commands.{
  Command, mirror_defs, mirror_dependencies, create, claim, complete, give_up, break_off,
  break_off_worker, place_watermark, push_watermark, apply, run_all,
}

-- The declared jobs, their dependencies and the watermarks are those of `r`.
pub record Frames (r r' : Repository) : Type 0 where
  pub defs : r'.defs ≡ r.defs
  pub deps : r'.deps ≡ r.deps
  pub watermarks : r'.watermarks ≡ r.watermarks

Frames-refl : (r : Repository) → Frames r r
Frames-refl r = assumption refl

pub finish-Frames :
    (i : ℕ) (f : Finish) (clock : DateTime) (r : Repository) → Frames r (finish i f clock r).1
unfolding finish
finish-Frames i f clock r = go (get i r.runs) refl
  where
    go : (o : Option JobRun) → get i r.runs ≡ o → Frames r (finish i f clock r).1
    go none e = rw (e, finish) (Frames-refl r)
    go (some run) e = elim (Bool-cases (is_running run.status)) [
      | inl t ↦ rw (e, finish) (rw t (assumption refl))
      | inr t ↦ rw (e, finish) (rw t (Frames-refl r))
    ]

pub fail-Frames :
    (i : ℕ) (reason : String) (clock : DateTime) (r : Repository)
    → Frames r (fail i reason clock r).1
unfolding fail
fail-Frames i reason clock r = go (get i r.runs) refl
  where
    go : (o : Option JobRun) → get i r.runs ≡ o → Frames r (fail i reason clock r).1
    go none e = rw (e, fail) (Frames-refl r)
    go (some run) e = elim (Bool-cases (ltb run.attempt run.max_attempts)) [
      | inl t ↦ rw (e, fail) (rw t (finish-Frames i (retry reason clock run) clock r))
      | inr t ↦ rw (e, fail) (rw t (finish-Frames i (stop_with dead reason) clock r))
    ]

pub claim_next-Frames :
    (worker : String) (now : Option DateTime) (clock : DateTime) (r : Repository)
    → Frames r (claim_next worker now clock r).1
unfolding claim_next
claim_next-Frames worker now clock r =
    elim (Option-cases
      (head? (sorted claim_order (filter (is_candidate r (or_else now clock)) (values r.runs))))) [
        | inl e ↦ rw (e, claim_next) (Frames-refl r)
        | inr (run, e) ↦ rw (e, claim_next) (assumption refl)
      ]

create_keyed-Frames :
    (key : String) (intent : JobIntent) (request : Option String) (clock : DateTime)
    (r : Repository)
    → Frames r (create_keyed key intent request clock r).1
unfolding create_keyed
create_keyed-Frames key intent request clock r =
    elim (Bool-cases (any (λ run. run.job_key == key && is_live run.status) (values r.runs))) [
      | inl t ↦ rw (t, create_keyed) (Frames-refl r)
      | inr t ↦ rw (t, create_keyed) (assumption refl)
    ]

pub create_run-Frames :
    (digest : Payload → String) (intent : JobIntent) (request : Option String) (clock : DateTime)
    (r : Repository)
    → Frames r (create_run digest intent request clock r).1
unfolding create_run
create_run-Frames digest intent request clock r =
    elim (Outcome-cases (job_key digest (payload intent))) [
      | inl (key, e) ↦ rw (e, create_run) (create_keyed-Frames key intent request clock r)
      | inr (x, e) ↦ rw (e, create_run) (Frames-refl r)
    ]

Frames-trans : {r s t : Repository} → Frames r s → Frames s t → Frames r t
Frames-trans p q = record {
  defs = q.defs ∙ p.defs;
  deps = q.deps ∙ p.deps;
  watermarks = q.watermarks ∙ p.watermarks;
}

interrupt_each-Frames :
    (prefix : String) (clock : DateTime) (runs : List JobRun) (count : ℕ) (r : Repository)
    → Frames r (interrupt_each prefix clock runs count r).1
unfolding interrupt_each
interrupt_each-Frames prefix clock [] count r = Frames-refl r
interrupt_each-Frames prefix clock (run ∷ rest) count r =
    elim (Bool-cases (is_running run.status && works_for prefix run)) [
      | inr t ↦ rw (t, interrupt_each) (interrupt_each-Frames prefix clock rest count r)
      | inl t ↦ elim (Outcome-cases (finish run.run_id f clock r).0) [
        | inl (x, e) ↦
            rw (t, interrupt_each)
              (rw e (
                Frames-trans kept (
                  interrupt_each-Frames prefix clock rest (count + 1)
                    (finish run.run_id f clock r).1)))
        | inr (x, e) ↦ rw (t, interrupt_each) (rw e kept)
      ]
    ]
  where
    f : Finish
    f = stop_with interrupted "停机超时"

    kept : Frames r (finish run.run_id f clock r).1
    kept = finish-Frames run.run_id f clock r

-- The calls that set a watermark without looking at the old one.
abbrev pub is_placing : Command → Bool
is_placing (place_watermark dataset scope time) = true
is_placing _ = false

-- The second time is there, and is not before the first.
abbrev pub AtLeast : Option DateTime → DateTime → Type 0
AtLeast none time = ⊥
AtLeast (some reached) time = time ≤ reached

module _ (digest : Payload → String) (dataset scope : String) where
  abbrev Shows : Repository → DateTime → Type 0
  Shows r t = AtLeast (shown (get_watermark dataset scope r)) t

  Shows-Frames : {r r' : Repository} (t : DateTime) → Frames r r' → Shows r t → Shows r' t
  unfolding get_watermark
  Shows-Frames t f h = rw f.watermarks h

  latest-AtLeast :
      (o : Option DateTime) (time t : DateTime) → AtLeast o t → AtLeast (some (latest o time)) t
  latest-AtLeast none time t h = absurd h
  latest-AtLeast (some x) time t h = omega arith

  Shows-advance :
      (d s : String) (time t : DateTime) (r : Repository)
      → Shows r t
      → Shows (advance_watermark d s time r).1 t
  Shows-advance d s time t r h = elim (Bool-cases (d == dataset && s == scope)) [
    | inr f ↦ rw (law.2 dataset scope (λ p. cc (rw (eq→beq p.0, eq→beq p.1) at f))) h
    | inl e ↦
        let ed : d ≡ dataset = beq→eq d dataset (and_left _ _ e) in
        let es : s ≡ scope = beq→eq s scope (and_right _ _ e) in
        rw (← ed, ← es)
          (rw law.0 (latest-AtLeast (shown (get_watermark d s r)) time t (rw (ed, es) h)))
  ]
    where
      law :
          (shown (get_watermark d s (advance_watermark d s time r).1)
            ≡ some (latest (shown (get_watermark d s r)) time))
          × (get_watermark d s (advance_watermark d s time r).1
              ≡ some (advance_watermark d s time r).0)
          × ((x y : String)
              → ¬ ((d ≡ x) × (s ≡ y))
              → get_watermark x y (advance_watermark d s time r).1 ≡ get_watermark x y r)
      law = get_watermark-advance_watermark d s time r

  Shows-apply :
      (c : Command) (r : Repository) (t : DateTime)
      → is_placing c ≡ false
      → Shows r t
      → Shows (apply digest c r) t
  unfolding apply sync_defs sync_dependencies succeed interrupt interrupt_running get_watermark
  Shows-apply (mirror_defs items) r t n h = h
  Shows-apply (mirror_dependencies items) r t n h = h
  Shows-apply (create intent request clock) r t n h =
      Shows-Frames t (create_run-Frames digest intent request clock r) h
  Shows-apply (claim worker now clock) r t n h =
      Shows-Frames t (claim_next-Frames worker now clock r) h
  Shows-apply (complete i rows clock) r t n h = Shows-Frames t (finish-Frames i _ clock r) h
  Shows-apply (give_up i reason clock) r t n h = Shows-Frames t (fail-Frames i reason clock r) h
  Shows-apply (break_off i reason clock) r t n h = Shows-Frames t (finish-Frames i _ clock r) h
  Shows-apply (break_off_worker prefix clock) r t n h =
      Shows-Frames t (interrupt_each-Frames prefix clock (values r.runs) 0 r) h
  Shows-apply (place_watermark d s time) r t n h = cc
  Shows-apply (push_watermark d s time) r t n h = Shows-advance d s time t r h

  -- A watermark that shows a time shows that time or a later one after any calls other than
  -- `set_watermark`.
  pub watermark_monotone :
      (cs : List Command) (r : Repository) (t : DateTime)
      → any is_placing cs ≡ false
      → AtLeast (shown (get_watermark dataset scope r)) t
      → AtLeast (shown (get_watermark dataset scope (run_all digest cs r))) t
  unfolding run_all
  watermark_monotone [] r t n h = h
  watermark_monotone (c ∷ cs) r t n h =
      watermark_monotone cs (apply digest c r) t (ground arith) (Shows-apply c r t (ground arith) h)
