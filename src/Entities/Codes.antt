-- ===== src/Entities/Codes.antt =====
-- src/fin_data_platform/registry/service.py, `EntityRegistry.resolve`: from a code, today's or an old one,
-- to its entity.
pub mod Latest
use fin_data_platform.Prelude.{
  ℕ, String, Bool, true, false, not, ◌&&◌, ◌||◌, Option, none, some, List, [], ◌∷◌, filter, head?,
  sorted, ltb, leb, nat_beq, nat_eq, string_eq, pair_eq, option_eq, or_else, if◌then◌else◌,
}
use fin_data_platform.Dict.{Dict, get, put, values}
use fin_data_platform.Runtime.Models.{Date}
use fin_data_platform.Entities.Models.{epoch, CodeHistoryRecord}
use fin_data_platform.Entities.Store.{EntityStore, find_by_code}

-- The key under which the latest version of an entry is kept
abbrev pub EntryKey : Type 0
EntryKey = ℕ × (String × Option Date)

abbrev pub entry_key : CodeHistoryRecord → EntryKey
entry_key entry = (entry.entity_id, (entry.code, entry.valid_from))

-- One round of the loop over the entries of the code
abbrev pub keep_latest :
    CodeHistoryRecord → Dict EntryKey CodeHistoryRecord → Dict EntryKey CodeHistoryRecord
keep_latest entry latest = elim (get (entry_key entry) latest) [
  | none ↦ put (entry_key entry) entry latest
  | some old ↦ if ltb old.version entry.version then put (entry_key entry) entry latest else latest
]

unfoldable pub latest_entries :
    List CodeHistoryRecord → Dict EntryKey CodeHistoryRecord → Dict EntryKey CodeHistoryRecord
latest_entries [] latest = latest
latest_entries (entry ∷ entries) latest = latest_entries entries (keep_latest entry latest)

-- The order of the key `(item.valid_from or EPOCH, item.version)`, largest first
abbrev pub is_earlier_listed : CodeHistoryRecord → CodeHistoryRecord → Bool
is_earlier_listed a b =
    ltb (or_else b.valid_from epoch) (or_else a.valid_from epoch)
    || (nat_beq (or_else b.valid_from epoch) (or_else a.valid_from epoch)
        && leb b.version a.version)

-- Whether the loop of `resolve` returns at this entry
abbrev pub is_valid_on : Option Date → CodeHistoryRecord → Bool
is_valid_on none entry = true
is_valid_on (some target) entry =
    not (elim entry.valid_from [ none ↦ false | some start ↦ ltb target start ])
    && not (elim entry.valid_to [ none ↦ false | some to ↦ ltb to target ])

unfoldable pub resolve : String → Option Date → EntityStore → Option ℕ
unfolding find_by_code latest_entries
resolve code as_of s =
    elim (head? (
      filter (is_valid_on as_of)
        (sorted is_earlier_listed (values (latest_entries (find_by_code code s) []))))) [
          | none ↦ none
          | some entry ↦ some entry.entity_id
        ]
