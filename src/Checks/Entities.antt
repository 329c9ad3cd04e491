-- ===== src/Checks/Entities.antt =====
-- The theorems on src/fin_data_platform/registry at small stores.
use fin_data_platform.Prelude.{
  Any, ◌↔◌, or_else, ℕ, ◌≡◌, refl, String, true, inr, none, some, List, [], ◌∷◌, arith, All, elem,
  nat_eq, string_eq, pair_eq, option_eq, sorted, insert_sorted, greatest, greatest_from,
}
use fin_data_platform.Prelude.{map, filter, Option}
use fin_data_platform.Dict.{Dict, get, put}
use fin_data_platform.Runtime.Models.{Date, DateTime}
use fin_data_platform.Entities.Batch.{entity_ids, from_keys, collect_entities, entity_many}
use fin_data_platform.Entities.Universe.{
  LifecycleRecord, status_of as status_of_listing, is_known_by, rank_row, rank_rows, members,
  universe,
}
use fin_data_platform.Entities.Universe.Members.{IsMember, universe_iff}
use fin_data_platform.Entities.Universe.Known.{universe-filter}
use fin_data_platform.Outcome.{Outcome, ok, raise}
use fin_data_platform.Entities.Models.{
  EntityRecord, RelationTypeRecord, covers, facet, required_facet,
}
use fin_data_platform.Entities.Store.{
  EntityStore, empty, all_rows, entity_rows, append_entity, append_code, code_history, find_by_code,
  append_relation, relation_rows, find_relations_by_related, append_external_id, external_id_rows,
  find_external_ids,
}
use fin_data_platform.Entities.Rows.{
  current_row, version_after, next_version, covering_row, close_row, append_row, entity, name_as_of,
}
use fin_data_platform.Entities.Codes.{latest_entries, resolve}
use fin_data_platform.Entities.Service.{
  Registration, status_of, facets_of, create, refreshed_status, refreshed, refresh,
  register_or_refresh, register,
}
use fin_data_platform.Entities.Changes.{
  resume_name_of, add_name_change, close_codes, add_code_change,
}
use fin_data_platform.Entities.Relations.{
  Vocabulary, vocabulary_errors, distinct_ids, enter_relation, add_relation, collected, related_ids,
  link_issuer,
}
use fin_data_platform.Entities.ExternalIds.{enter_external_id, add_external_id, find_by_external_id}
use fin_data_platform.Entities.Valid.{IsValid}
use fin_data_platform.Entities.Service.{Facets, new_entity}
use fin_data_platform.Entities.Valid.Classified.{IsClassified}
use fin_data_platform.Entities.Calls.{
  perform_all-IsClassified, Call, enrol, change_name, change_code, link, identify, perform,
  perform_all, perform_all-IsValid, perform_all-entity_type,
}
use fin_data_platform.Entities.Service.Identity.{IsOf, resolve-register, register_again}
use fin_data_platform.Entities.Changes.Names.{
  name_as_of-add_name_change, name_as_of-add_name_change_old,
}
use fin_data_platform.Entities.Relations.Inverses.{related_ids-inverse}
use fin_data_platform.Entities.Relations.Entered.{related_ids-add_relation}
use fin_data_platform.Entities.ExternalIds.Lookup.{find_by_external_id-add_external_id}

pub program : Unit {0}
unfolding entity_ids from_keys collect_entities entity_many all_rows status_of_listing rank_row
    rank_rows members universe get put sorted insert_sorted greatest greatest_from covers facet
    required_facet entity_rows append_entity append_code code_history find_by_code append_relation
    relation_rows find_relations_by_related append_external_id external_id_rows find_external_ids
    current_row version_after next_version covering_row close_row append_row entity name_as_of
    latest_entries resolve status_of facets_of create refreshed_status refreshed refresh
    register_or_refresh register resume_name_of add_name_change close_codes add_code_change
    vocabulary_errors distinct_ids enter_relation add_relation collected related_ids link_issuer
    enter_external_id add_external_id find_by_external_id perform perform_all
program = tt

abbrev word : String → String → RelationTypeRecord
word name inverse = record {
  relation_type = name;
  inverse_relation = inverse;
  description = "";
  valid_from = none;
  valid_to = none;
  knowledge_time = none;
  version = 1;
}

abbrev vocabulary : Vocabulary
vocabulary = ("issued_by", word "issued_by" "issues") ∷ ("issues", word "issues" "issued_by") ∷ []

-- Texts without spaces around them
abbrev strip : String → String
strip text = text

abbrev entry : String → String → String → Registration
entry code entity_type name = record {
  code = code;
  entity_type = entity_type;
  name = name;
  entity_class = none;
  market = some "cn";
  currency = none;
  exchange = none;
  frequency = none;
  unit = none;
  algorithm_id = none;
  social_status = none;
  valid_from = none;
  attrs = none;
}

abbrev bank : Registration
bank = entry "PAB" "issuer" "Ping An Bank"

abbrev share : Registration
share = entry "000001.SZ" "equity" "SDB A"

abbrev calls : List Call
calls = enrol bank 1 ∷ enrol share 2 ∷ []

abbrev issuer_facets : Facets
issuer_facets = record {
  entity_type = "issuer";
  entity_class = none;
  market = some "cn";
  social_status = some "operating";
}

abbrev both : EntityStore
both = perform_all vocabulary strip calls (empty 10001)

both-IsValid : IsValid both
both-IsValid = perform_all-IsValid vocabulary strip 10001 calls

both_next_id : both.next_id ≡ 10003
unfolding program
both_next_id = refl

all_calls : List Call
all_calls =
    enrol bank 1
    ∷ enrol share 2
    ∷ link 10002 10001 3
    ∷ change_name 10002 "PAB A" (some 15000) none none 4
    ∷ change_code 10002 "000001.XSHE" (some 16000) 5
    ∷ identify 10002 "isin" "CNE000000040" none none 6
    ∷ []

perform_all-IsValid_example : IsValid (perform_all vocabulary strip all_calls (empty 10001))
perform_all-IsValid_example = perform_all-IsValid vocabulary strip 10001 all_calls

resolve-register_example : resolve "000001.SZ" none (register share 7 both).1 ≡ some 10002
unfolding program
resolve-register_example = resolve-register share 7 both _ both-IsValid refl

name_as_of-add_name_change_example :
    name_as_of 10002
      (some 15020)
      (add_name_change 10002 "S SDB A" (some 15010) (some 15020) none 8 both).1
    ≡ some "S SDB A"
unfolding program
name_as_of-add_name_change_example =
    name_as_of-add_name_change 10002 "S SDB A" 15010 (some 15020) none 8 both 15020 both-IsValid
      (omega arith, tt) refl (omega arith) (omega arith)

name_as_of-add_name_change_old_case :
    name_as_of 10002
      (some 15021)
      (add_name_change 10002 "S SDB A" (some 15010) (some 15020) none 8 both).1
    ≡ some "SDB A"
unfolding program
name_as_of-add_name_change_old_case =
    name_as_of-add_name_change_old 10002 "S SDB A" 15010 (some 15020) none 8 both 15021 "SDB A"
      both-IsValid (omega arith, tt) (omega arith) (omega arith) refl refl (inr (omega arith))

find_by_external_id-add_external_id_example :
    find_by_external_id strip "isin" "CNE000000040" none
      (add_external_id strip 10002 "isin" "CNE000000040" none none 6 both).1
    ≡ ok (some 10002)
unfolding program
find_by_external_id-add_external_id_example =
    find_by_external_id-add_external_id strip 10002 "isin" "CNE000000040" none 6 both _ tt refl

register_again_case :
    ((register share 9 (register share 7 both).1).1.next_id ≡ (register share 7 both).1.next_id)
    × ((register share 9 (register share 7 both).1).1.codes ≡ (register share 7 both).1.codes)
    × IsOf 10002 (register share 9 (register share 7 both).1).0
unfolding program
register_again_case = register_again share share 7 9 both _ both-IsValid refl refl

perform_all-entity_type_example :
    (later : List EntityRecord) × (get 10002
        (perform_all vocabulary strip
          (change_name 10002 "PAB A" (some 15000) none none 4 ∷ [])
          both).rows
      ≡ some later)
    × All (λ other. other.entity_type ≡ "equity") later
unfolding program
perform_all-entity_type_example =
    perform_all-entity_type vocabulary strip
      (change_name 10002 "PAB A" (some 15000) none none 4 ∷ []) both 10002 _ [] both-IsValid refl

abbrev linked : EntityStore
linked = perform_all vocabulary strip (link 10002 10001 3 ∷ []) both

related_ids-inverse_example :
    (forth : List ℕ) × (back : List ℕ) × (related_ids vocabulary 10002 "issued_by"
        (some 15000)
        linked
      ≡ ok forth)
    × (related_ids vocabulary 10001 "issues" (some 15000) linked ≡ ok back)
    × (elem 10001 forth ≡ elem 10002 back)
unfolding program
related_ids-inverse_example =
    related_ids-inverse vocabulary 10002 10001 "issued_by" (word "issued_by" "issues") (some 15000)
      linked refl refl

related_ids-add_relation_example :
    (forth : List ℕ) × (back : List ℕ) × (related_ids vocabulary 10002 "issued_by" none
        (add_relation vocabulary 10002 10001 "issued_by" none none 3 both).1
      ≡ ok forth)
    × (related_ids vocabulary 10001 "issues" none
          (add_relation vocabulary 10002 10001 "issued_by" none none 3 both).1
        ≡ ok back)
    × (elem 10001 forth ≡ true)
    × (elem 10002 back ≡ true)
unfolding program
related_ids-add_relation_example =
    related_ids-add_relation vocabulary 10002 10001 "issued_by" (word "issued_by" "issues") none 3
      both _ refl refl refl

abbrev listing : ℕ → String → Date → Option DateTime → ℕ → LifecycleRecord
listing i status start known version = record {
  entity_id = i;
  status = status;
  start_date = some start;
  end_date = none;
  knowledge_time = known;
  version = version;
}

-- The share is listed; a later row, which becomes known at 50, has it delisted.
abbrev listings : List LifecycleRecord
listings =
    listing 10002 "listed" 8000 (some 10) 1
    ∷ listing 10002 "delisted" 9000 (some 50) 1
    ∷ listing 10003 "listed" 8000 none 1
    ∷ []

lookup : List ℕ → Date → Dict ℕ EntityRecord
lookup ids day = entity_many ids (some day) both

abbrev records_of : Outcome (List EntityRecord) → List EntityRecord
records_of (ok records) = records
records_of (raise e) = []

abbrev universe_names : Outcome (List EntityRecord) → List String
universe_names answer = map (λ item. item.name) (records_of answer)

universe_before :
    universe_names (universe lookup listings (some 9500) (some 20) none none) ≡ "SDB A" ∷ []
unfolding program lookup
universe_before = refl

universe_after : universe_names (universe lookup listings (some 9500) none none none) ≡ []
unfolding program lookup
universe_after = refl

universe-filter_case :
    universe lookup listings (some 9500) (some 20) none none
    ≡ universe lookup (filter (is_known_by (some 20)) listings) (some 9500) none none none
universe-filter_case = universe-filter lookup listings (some 9500) (some 20) none none

-- The share, as the registry reads it on the day
abbrev share_record : EntityRecord
share_record = or_else (entity 10002 (some 9500) both) (new_entity 10001 issuer_facets bank 1)

universe_iff_example :
    Any
      (λ x. x ≡ share_record)
      (records_of (universe lookup listings (some 9500) (some 20) (some "equity") none))
    ↔ IsMember both listings 9500 (some 20) (some "equity") none share_record
unfolding program lookup
universe_iff_example =
    universe_iff both listings 9500 (some 20) (some "equity") none _ share_record refl

perform_all-IsClassified_example : All IsClassified (new_entity 10001 issuer_facets bank 1 ∷ [])
unfolding program
perform_all-IsClassified_example =
    perform_all-IsClassified vocabulary strip 10001 calls 10001
      (new_entity 10001 issuer_facets bank 1 ∷ []) refl
