-- ===== src/Dict/Totals.antt =====
-- Sums over a dict of numbers, dicts with the same keys, and dicts under `move_to_end`.
use fin_data_platform.Prelude.{
  ℕ, ◌+◌, ◌≤◌, ◌≡◌, refl, false, inl, inr, none, some, List, [], ◌∷◌, ◌++◌, Eq, Bool-cases,
  Option-cases, arith, or_else, if◌then◌else◌, length, length-append,
}
use fin_data_platform.Dict.{Dict, get, put, remove, has, move_to_end, values, IsDistinct}
use fin_data_platform.Dict.Laws.{get-remove, remove-IsDistinct}

abbrev pub sum : List ℕ → ℕ
sum [] = 0
sum (x ∷ xs) = x + sum xs

module _ {ℓ κ} {K : Type ℓ} {V : Type κ} ⦃e : Eq K⦄ where
  pub remove_absent : (k : K) (m : Dict K V) → get k m ≡ none → remove k m ≡ m
  unfolding get remove
  remove_absent k [] h = refl
  remove_absent k ((j, v) ∷ m) h = ground (arith, remove_absent k m)

  pub length-remove : (k : K) (m : Dict K V) → length (remove k m) ≤ length m
  unfolding remove
  length-remove k [] = omega arith
  length-remove k ((j, v) ∷ m) = ground (arith, length-remove k m)

  pub has-remove :
      (k j : K) (m : Dict K V) → has j (remove k m) ≡ (if e.beq k j then false else has j m)
  has-remove k j m = ground (arith, get-remove k j m)

  length-remove_present :
      (k : K) (v : V) (m : Dict K V) → get k m ≡ some v → length (remove k m) + 1 ≤ length m
  unfolding get remove
  length-remove_present k v [] h = absurd (ground arith)
  length-remove_present k v ((j, w) ∷ m) h =
      ground (arith, length-remove k m, length-remove_present k v m)

  pub put_absent : (k : K) (v : V) (m : Dict K V) → get k m ≡ none → put k v m ≡ m ++ (k, v) ∷ []
  unfolding get put
  put_absent k v [] h = refl
  put_absent k v ((j, w) ∷ m) h = ground (arith, put_absent k v m)

  pub get-append_one :
      (j k : K) (v : V) (m : Dict K V)
      → get j (m ++ (k, v) ∷ [])
        ≡ (elim (get j m) [ some w ↦ some w | none ↦ if e.beq k j then some v else none ])
  unfolding get
  get-append_one j k v [] = ground arith
  get-append_one j k v ((i, w) ∷ m) = ground (arith, get-append_one j k v m)

  pub get-move_to_end : (k j : K) (m : Dict K V) → get j (move_to_end k m) ≡ get j m
  unfolding move_to_end
  get-move_to_end k j m = elim (Option-cases (get k m)) [
    | inl h ↦ rw (h, move_to_end) refl
    | inr (v, h) ↦
        rw (h, move_to_end)
          (ground (arith, get-append_one j k v (remove k m), get-remove k j m, e.beq_iff k j))
  ]

  pub length-move_to_end : (k : K) (m : Dict K V) → length (move_to_end k m) ≤ length m
  unfolding move_to_end
  length-move_to_end k m = elim (Option-cases (get k m)) [
    | inl h ↦ rw (h, move_to_end) (omega arith)
    | inr (v, h) ↦
        rw (h, move_to_end)
          (omega (arith, length-append (remove k m) ((k, v) ∷ []), length-remove_present k v m h))
  ]

  append_one-IsDistinct :
      (k : K) (v : V) (m : Dict K V) → get k m ≡ none → IsDistinct m → IsDistinct (m ++ (k, v) ∷ [])
  unfolding get
  append_one-IsDistinct k v [] h d = (refl, tt)
  append_one-IsDistinct k v ((j, w) ∷ m) h (fresh, d) = (
    ground (arith, get-append_one j k v m, e.beq_iff k j, e.beq_iff j k),
    append_one-IsDistinct k v m (ground arith) d,
  )

  pub move_to_end-IsDistinct : (k : K) (m : Dict K V) → IsDistinct m → IsDistinct (move_to_end k m)
  unfolding move_to_end
  move_to_end-IsDistinct k m d = elim (Option-cases (get k m)) [
    | inl h ↦ rw (h, move_to_end) d
    | inr (v, h) ↦
        rw (h, move_to_end)
          (append_one-IsDistinct k v (remove k m) (ground (arith, get-remove k k m, e.beq_iff k k))
            (remove-IsDistinct k m d))
  ]

  -- A dict in which no key stands is empty.
  pub empty_of_none : (m : Dict K V) → ((k : K) → get k m ≡ none) → m ≡ []
  unfolding get
  empty_of_none [] h = refl
  empty_of_none ((k, v) ∷ m) h = absurd (ground (arith, h k, e.beq_iff k k))

module _ {ℓ} {K : Type ℓ} ⦃e : Eq K⦄ where
  pub sum-put :
      (k : K) (n : ℕ) (m : Dict K ℕ)
      → get k m ≡ none
      → sum (values (put k n m)) ≡ sum (values m) + n
  unfolding get put
  sum-put k n [] h = omega arith
  sum-put k n ((j, w) ∷ m) h = ground (arith, sum-put k n m)

  pub sum-remove :
      (k : K) (m : Dict K ℕ)
      → IsDistinct m
      → sum (values (remove k m)) + or_else (get k m) 0 ≡ sum (values m)
  unfolding get remove
  sum-remove k [] d = refl
  sum-remove k ((j, w) ∷ m) (fresh, d) = elim (Bool-cases (e.beq j k)) [
    | inl same ↦ rw same (rw (remove_absent k m (ground (arith, e.beq_iff j k))) (omega arith))
    | inr other ↦ rw other (omega (arith, sum-remove k m d))
  ]
