-- ===== src/Entities/Rows.antt =====
-- src/fin_data_platform/registry/service.py, `EntityRegistry`: the rows of one entity, and the choice of
-- the row that holds today or on a day.
use fin_data_platform.Prelude.{
  ℕ, ◌+◌, String, Bool, true, false, ◌&&◌, ◌||◌, Option, none, some, List, [], ◌∷◌, filter,
  greatest, max, ltb, nat_beq, nat_eq, string_eq, or_else,
}
use fin_data_platform.Dict.{Dict, put}
use fin_data_platform.Outcome.{Outcome, ok, raise, key_error}
use fin_data_platform.Runtime.Models.{DateTime, Date}
use fin_data_platform.Entities.Models.{epoch, EntityRecord, covers}
use fin_data_platform.Entities.Store.{EntityStore, entity_rows, append_entity}

-- Whether the key `(row.valid_from or EPOCH, row.version)` of the second row is larger.
abbrev pub is_newer : EntityRecord → EntityRecord → Bool
is_newer a b =
    ltb (or_else a.valid_from epoch) (or_else b.valid_from epoch)
    || (nat_beq (or_else a.valid_from epoch) (or_else b.valid_from epoch)
        && ltb a.version b.version)

abbrev pub is_open : EntityRecord → Bool
is_open row = elim row.valid_to [ none ↦ true | some _ ↦ false ]

-- `open_rows or rows`
abbrev pub open_or_all : List EntityRecord → List EntityRecord
open_or_all rows = elim (filter is_open rows) [ [] ↦ rows | row ∷ rest ↦ row ∷ rest ]

-- `_current_row`
unfoldable pub current_row : ℕ → EntityStore → Outcome EntityRecord
current_row entity_id s = elim (greatest is_newer (open_or_all (entity_rows entity_id s))) [
  | none ↦ raise key_error
  | some row ↦ ok row
]

-- `max(row.version for row in rows) + 1`, on rows that are there
unfoldable pub version_after : List EntityRecord → ℕ
version_after [] = 1
version_after (row ∷ rows) = max (row.version + 1) (version_after rows)

-- `_next_version`
unfoldable pub next_version : ℕ → EntityStore → ℕ
unfolding version_after
next_version entity_id s = version_after (entity_rows entity_id s)

abbrev pub covers_row : Date → EntityRecord → Bool
covers_row day row = covers row.valid_from row.valid_to (some day)

-- `_covering_row` on a day
unfoldable pub covering_row : ℕ → Date → EntityStore → Option EntityRecord
covering_row entity_id day s = greatest is_newer (filter (covers_row day) (entity_rows entity_id s))

-- `_close_row`
unfoldable pub close_row : EntityRecord → Date → DateTime → EntityStore → EntityStore
close_row row valid_to clock s =
    append_entity
      (record row {
        valid_to = some valid_to;
        knowledge_time = some clock;
        version = next_version row.entity_id s;
      })
      s

-- `dict(base.attrs or {})` with the extra entries, and nothing for an empty dict
abbrev pub extended :
    Option (Dict String String) → Option (String × String) → Option (Dict String String)
extended attrs extra = elim extra [
  | some entry ↦ some (put entry.0 entry.1 (or_else attrs []))
  | none ↦ elim attrs [
    | none ↦ none
    | some m ↦ elim m [ [] ↦ none | entry ∷ rest ↦ some (entry ∷ rest) ]
  ]
]

-- The row that `_append_row` appends
abbrev pub appended :
    EntityRecord
    → Option String
    → Option String
    → Option Date
    → Option Date
    → Option (String × String)
    → DateTime
    → EntityStore
    → EntityRecord
appended base code name valid_from valid_to extra clock s = record base {
  code = or_else code base.code;
  name = or_else name base.name;
  valid_from = elim valid_from [ none ↦ base.valid_from | some day ↦ some day ];
  valid_to = valid_to;
  knowledge_time = some clock;
  version = next_version base.entity_id s;
  attrs = extended base.attrs extra;
}

-- `_append_row`
unfoldable pub append_row :
    EntityRecord
    → Option String
    → Option String
    → Option Date
    → Option Date
    → Option (String × String)
    → DateTime
    → EntityStore
    → EntityStore
append_row base code name valid_from valid_to extra clock s =
    append_entity (appended base code name valid_from valid_to extra clock s) s

-- `entity`
unfoldable pub entity : ℕ → Option Date → EntityStore → Option EntityRecord
unfolding covering_row
entity entity_id none s = greatest is_newer (open_or_all (entity_rows entity_id s))
entity entity_id (some day) s = covering_row entity_id day s

-- `name_as_of`
unfoldable pub name_as_of : ℕ → Option Date → EntityStore → Option String
unfolding entity
name_as_of entity_id day s = elim (entity entity_id day s) [
  | none ↦ none
  | some row ↦ some row.name
]
