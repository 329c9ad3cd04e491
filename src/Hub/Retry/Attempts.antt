-- ===== src/Hub/Retry/Attempts.antt =====
-- How often `retry_call` calls its function, and what it ends with.
use fin_data_platform.Prelude.{
  ℕ, zero, suc, ◌+◌, ◌≤◌, ◌<◌, ◌≡◌, refl, Bool, true, false, ◌⊎◌, inl, inr, List, [], arith, length,
  ap, subst, sym,
}
use fin_data_platform.Hub.Retry.{
  Reply, answer, transient, fatal, Ending, returned, raised, Policy, prepend, compute_backoff,
  retry_from, retry_call,
}

abbrev pub is_transient {ℓ κ} : {A : Type ℓ} {E : Type κ} → Reply A E → Bool
is_transient (answer a) = false
is_transient (transient x) = true
is_transient (fatal x) = false

-- A reply as the end of the call.
abbrev pub ending {ℓ κ} : {A : Type ℓ} {E : Type κ} → Reply A E → Ending A E
ending (answer a) = returned a
ending (transient x) = raised x
ending (fatal x) = raised x

Reply-cases {ℓ κ} :
    {A : Type ℓ} {E : Type κ} (r : Reply A E)
    → ((a : A) × (r ≡ answer a)) ⊎ ((x : E) × (r ≡ transient x)) ⊎ ((x : E) × (r ≡ fatal x))
Reply-cases (answer a) = inl (a, refl)
Reply-cases (transient x) = inr (inl (x, refl))
Reply-cases (fatal x) = inr (inr (x, refl))

-- The call made `more` further attempts after the one numbered `first`, each after a transient
-- failure, and ended with the reply of the last: not a transient failure, unless `left` attempts were
-- all that was allowed.
pub record Tries {ℓ κ} {A : Type ℓ} {E : Type κ} (fn : ℕ → Reply A E) (first left : ℕ)
    (result : Ending A E × List (ℕ × ℕ)) : Type (ℓ ⊔ κ) where
  pub more : ℕ
  pub budget : more ≤ left
  pub failed : (i : ℕ) → i < more → is_transient (fn (first + i)) ≡ true
  pub sleeps : length result.1 ≡ more
  pub ends : result.0 ≡ ending (fn (first + more))
  pub last : (is_transient (fn (first + more)) ≡ false) ⊎ (more ≡ left)

module _ {ℓ κ} {A : Type ℓ} {E : Type κ} (policy : Policy) (rand : ℕ → ℕ × ℕ)
    (fn : ℕ → Reply A E) where
  at_once :
      (first left : ℕ)
      → (is_transient (fn first) ≡ false) ⊎ (0 ≡ left)
      → Tries fn first left (ending (fn first), [])
  at_once first left h =
      let same : first + 0 ≡ first = omega arith in
      record {
        more = 0;
        budget = omega arith;
        failed = λ i le. absurd (omega (arith, le));
        sleeps = refl;
        ends = rw same refl;
        last = rw same h;
      }

  once_more :
      (first left : ℕ) (delay : ℕ × ℕ) (result : Ending A E × List (ℕ × ℕ))
      → is_transient (fn first) ≡ true
      → Tries fn (first + 1) left result
      → Tries fn first (suc left) (prepend delay result)
  once_more first left delay (e, delays) h p =
      let same : first + 1 + p.more ≡ first + suc p.more = omega arith in
      record {
        more = suc p.more;
        budget = omega (arith, p.budget);
        failed = failed;
        sleeps = ap suc p.sleeps;
        ends = subst (λ n. e ≡ ending (fn n)) same p.ends;
        last = elim p.last [
          | inl q ↦ inl (subst (λ n. is_transient (fn n) ≡ false) same q)
          | inr q ↦ inr (ap suc q)
        ];
      }
    where
      failed : (i : ℕ) → i < suc p.more → is_transient (fn (first + i)) ≡ true
      failed zero le = let z : first + 0 ≡ first = omega arith in rw z h
      failed (suc i) le =
          let z : first + 1 + i ≡ first + suc i = omega arith in
          subst (λ n. is_transient (fn n) ≡ true) z (p.failed i (omega (arith, le)))

  stops :
      (first left : ℕ) (r : Reply A E)
      → fn first ≡ r
      → (is_transient r ≡ false) ⊎ (0 ≡ left)
      → Tries fn first left (ending r, [])
  stops first left r e h =
      subst (λ r. Tries fn first left (ending r, [])) e
        (at_once first left (subst (λ r. (is_transient r ≡ false) ⊎ (0 ≡ left)) (sym e) h))

  retry_from-Tries : (left first : ℕ) → Tries fn first left (retry_from policy rand fn left first)
  unfolding retry_from
  retry_from-Tries zero first = elim (Reply-cases (fn first)) [
    | inl (a, e) ↦ rw (e, retry_from) (stops first 0 (answer a) e (inl refl))
    | inr (inl (x, e)) ↦ rw (e, retry_from) (stops first 0 (transient x) e (inr refl))
    | inr (inr (x, e)) ↦ rw (e, retry_from) (stops first 0 (fatal x) e (inl refl))
  ]
  retry_from-Tries (suc left) first = elim (Reply-cases (fn first)) [
    | inl (a, e) ↦ rw (e, retry_from) (stops first (suc left) (answer a) e (inl refl))
    | inr (inl (x, e)) ↦
        rw (e, retry_from)
          (once_more first left (compute_backoff policy (rand first) first)
            (retry_from policy rand fn left (first + 1)) (ap is_transient e)
            (retry_from-Tries left (first + 1)))
    | inr (inr (x, e)) ↦ rw (e, retry_from) (stops first (suc left) (fatal x) e (inl refl))
  ]

  -- With at least one attempt allowed, the function is called for the first time, and again after each
  -- transient failure, once per allowed attempt at most. The call sleeps once before each repetition
  -- and ends with the last reply, which is a transient failure only if no attempt was left.
  pub retry_call-Tries :
      (attempts : ℕ) → Tries fn 1 attempts (retry_call policy rand fn (suc attempts))
  unfolding retry_call
  retry_call-Tries attempts = retry_from-Tries attempts 1
