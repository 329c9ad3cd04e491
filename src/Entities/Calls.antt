-- ===== src/Entities/Calls.antt =====
-- Sequences of calls of the registry that change its store: what they keep, and what a call that raises
-- leaves behind. `register_issuer` is a registration, so it is not a call of its own.
use fin_data_platform.Prelude.{
  ℕ, ◌≡◌, sym, ◌∙◌, ap, String, Option, some, List, [], ◌∷◌, All, All-map, nat_eq, arith,
}
use fin_data_platform.Dict.{get}
use fin_data_platform.Outcome.{Outcome, ok, ◌>>=◌}
use fin_data_platform.Runtime.Models.{DateTime, Date}
use fin_data_platform.Entities.Models.{EntityRecord}
use fin_data_platform.Entities.Store.{EntityStore, empty}
use fin_data_platform.Entities.Service.{Registration, register}
use fin_data_platform.Entities.Changes.{add_name_change, add_code_change}
use fin_data_platform.Entities.Relations.{Vocabulary, add_relation, link_issuer}
use fin_data_platform.Entities.ExternalIds.{add_external_id}
use fin_data_platform.Entities.Valid.{IsValid}
use fin_data_platform.Entities.Valid.Classified.{IsClassified, AreClassified}
use fin_data_platform.Entities.Valid.Classes.{register-AreClassified}
use fin_data_platform.Entities.Valid.ClassCalls.{
  add_name_change-AreClassified, add_code_change-AreClassified, add_relation-AreClassified,
  link_issuer-AreClassified, add_external_id-AreClassified,
}
use fin_data_platform.Entities.Valid.Writes.{Later, Later-refl, Later-trans}
use fin_data_platform.Entities.Valid.Refreshment.{Later-register}
use fin_data_platform.Entities.Valid.Changes.{Later-add_name_change, Later-add_code_change}
use fin_data_platform.Entities.Valid.Links.{
  Later-add_relation, Later-link_issuer, Later-add_external_id,
}

pub data Call : Type 0 where
  enrol : Registration → DateTime → Call
  change_name : ℕ → String → Option Date → Option Date → Option String → DateTime → Call
  change_code : ℕ → String → Option Date → DateTime → Call
  relate : ℕ → ℕ → String → Option Date → Option Date → DateTime → Call
  link : ℕ → ℕ → DateTime → Call
  identify : ℕ → String → String → Option Date → Option Date → DateTime → Call

-- Only whether a call returns
abbrev returned {ℓ} : {A : Type ℓ} → Outcome A → Outcome (Unit {0})
returned result = result >>= (λ _. ok tt)

pub init-IsValid : (start : ℕ) → IsValid (empty start)
unfolding get
init-IsValid start = record {
  histories = λ i rows h. absurd (ground arith);
  codes = tt;
  relations = tt;
  external_ids = tt;
}

module _ (vocabulary : Vocabulary) (strip : String → String) where
  unfoldable pub perform : Call → EntityStore → Outcome (Unit {0}) × EntityStore
  perform (enrol r clock) s = let (o, s') = register r clock s in (returned o, s')
  perform (change_name i name start end ann_date clock) s =
      add_name_change i name start end ann_date clock s
  perform (change_code i code start clock) s = add_code_change i code start clock s
  perform (relate i j word valid_from valid_to clock) s =
      let (o, s') = add_relation vocabulary i j word valid_from valid_to clock s in (returned o, s')
  perform (link i j clock) s = let (o, s') = link_issuer vocabulary i j clock s in (returned o, s')
  perform (identify i id_type id_value valid_from valid_to clock) s =
      let (o, s') = add_external_id strip i id_type id_value valid_from valid_to clock s in
      (returned o, s')

  unfoldable pub perform_all : List Call → EntityStore → EntityStore
  unfolding perform
  perform_all [] s = s
  perform_all (c ∷ cs) s = perform_all cs (perform c s).1

  Later-perform : (c : Call) (s : EntityStore) → IsValid s → Later s (perform c s).1
  unfolding perform
  Later-perform (enrol r clock) s v = Later-register r clock s v
  Later-perform (change_name i name start end ann_date clock) s v =
      Later-add_name_change i name start end ann_date clock s v
  Later-perform (change_code i code start clock) s v = Later-add_code_change i code start clock s v
  Later-perform (relate i j word valid_from valid_to clock) s v =
      Later-add_relation vocabulary i j word valid_from valid_to clock s v
  Later-perform (link i j clock) s v = Later-link_issuer vocabulary i j clock s v
  Later-perform (identify i id_type id_value valid_from valid_to clock) s v =
      Later-add_external_id strip i id_type id_value valid_from valid_to clock s v

  Later-perform_all : (cs : List Call) (s : EntityStore) → IsValid s → Later s (perform_all cs s)
  unfolding perform_all
  Later-perform_all [] s v = Later-refl s v
  Later-perform_all (c ∷ cs) s v =
      let first = Later-perform c s v in
      Later-trans _ _ _ first (Later-perform_all cs (perform c s).1 first.valid)

  -- After any calls on an empty store, the rows of every entity carry its number, which is below the
  -- next number to give out, have one entity type and rising versions; every stored code, relation and
  -- external identifier is of entities that have rows.
  pub perform_all-IsValid : (start : ℕ) (cs : List Call) → IsValid (perform_all cs (empty start))
  perform_all-IsValid start cs = (Later-perform_all cs (empty start) (init-IsValid start)).valid

  -- No calls on a valid store change the type of an entity: it still has rows after them, and all of
  -- them have the type of a row that it had before.
  pub perform_all-entity_type :
      (cs : List Call) (s : EntityStore) (i : ℕ) (row : EntityRecord) (rows : List EntityRecord)
      → IsValid s
      → get i s.rows ≡ some (row ∷ rows)
      → (later : List EntityRecord) × (get i (perform_all cs s).rows ≡ some later)
        × All (λ other. other.entity_type ≡ row.entity_type) later
  perform_all-entity_type cs s i row rows v h =
      let (below, (kind, old)) = v.histories i (row ∷ rows) h in
      let same : row.entity_id ≡ i = old.own.0.0 in
      let kept = (Later-perform_all cs s v).belongs row (record {
        rows = row ∷ rows;
        stored = ap (λ j. get j s.rows) same ∙ h;
        kind = All-map _ _ (λ other (_, t). t ∙ sym old.own.0.1) (row ∷ rows) old.own;
      }) in
      (kept.rows, sym (ap (λ j. get j (perform_all cs s).rows) same) ∙ kept.stored, kept.kind)

  perform-AreClassified :
      (c : Call) (s : EntityStore) → AreClassified s → AreClassified (perform c s).1
  unfolding perform
  perform-AreClassified (enrol r clock) s k = register-AreClassified r clock s k
  perform-AreClassified (change_name i name start end ann_date clock) s k =
      add_name_change-AreClassified i name start end ann_date clock s k
  perform-AreClassified (change_code i code start clock) s k =
      add_code_change-AreClassified i code start clock s k
  perform-AreClassified (relate i j word valid_from valid_to clock) s k =
      add_relation-AreClassified vocabulary i j word valid_from valid_to clock s k
  perform-AreClassified (link i j clock) s k = link_issuer-AreClassified vocabulary i j clock s k
  perform-AreClassified (identify i id_type id_value valid_from valid_to clock) s k =
      add_external_id-AreClassified strip i id_type id_value valid_from valid_to clock s k

  classified_from :
      (cs : List Call) (s : EntityStore) → AreClassified s → AreClassified (perform_all cs s)
  unfolding perform_all
  classified_from [] s k = k
  classified_from (c ∷ cs) s k = classified_from cs (perform c s).1 (perform-AreClassified c s k)

  -- After any calls on an empty store, every stored row is classified: its entity type, and its entity
  -- class and market if it has them, are members of their enumerations, and if it has a social status,
  -- that is a member of its enumeration and the row is an issuer's.
  pub perform_all-IsClassified :
      (start : ℕ) (cs : List Call) (i : ℕ) (rows : List EntityRecord)
      → get i (perform_all cs (empty start)).rows ≡ some rows
      → All IsClassified rows
  unfolding get
  perform_all-IsClassified start cs =
      classified_from cs (empty start) (λ i rows h. absurd (ground arith))
