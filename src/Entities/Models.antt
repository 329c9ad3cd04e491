-- ===== src/Entities/Models.antt =====
-- src/fin_data_platform/registry/models.py and _util.py. The classes of texts are lists of their
-- members. Attribute values are texts. A day that `to_date` cannot read is a missing day: its reading
-- of texts and timestamps stands outside, with the caller.
use fin_data_platform.Prelude.{
  ℕ, String, Bool, true, false, ◌&&◌, Option, none, some, List, [], ◌∷◌, elem, string_eq, leb,
  if◌then◌else◌,
}
use fin_data_platform.Dict.{Dict}
use fin_data_platform.Outcome.{Outcome, ok, raise, value_error}
use fin_data_platform.Runtime.Models.{DateTime, Date}

-- date(1990, 1, 1), in days from 1970
abbrev pub epoch : Date
epoch = 7305

abbrev pub entity_types : List String
entity_types =
    "issuer" ∷ "equity" ∷ "etf" ∷ "lof" ∷ "fund" ∷ "index" ∷ "bond" ∷ "future" ∷ "option" ∷ "rate"
    ∷ "fx" ∷ "macro" ∷ "basket" ∷ []

abbrev pub entity_classes : List String
entity_classes = "bond_etf" ∷ "money_etf" ∷ "reit" ∷ "equity_index" ∷ "commodity_future" ∷ []

abbrev pub markets : List String
markets = "cn" ∷ "hk" ∷ "us" ∷ "global" ∷ []

abbrev pub social_statuses : List String
social_statuses = "operating" ∷ "defunct" ∷ "restructuring" ∷ []

abbrev pub id_types : List String
id_types = "isin" ∷ "figi" ∷ "cusip" ∷ "sedol" ∷ "lei" ∷ "uscc" ∷ "other" ∷ []

pub record EntityRecord : Type 0 where
  pub entity_id : ℕ
  pub entity_type : String
  pub code : String
  pub name : String
  pub entity_class : Option String
  pub market : Option String
  pub currency : Option String
  pub exchange : Option String
  pub frequency : Option String
  pub unit : Option String
  pub algorithm_id : Option String
  pub social_status : Option String
  pub valid_from : Option Date
  pub valid_to : Option Date
  pub knowledge_time : Option DateTime
  pub version : ℕ
  pub attrs : Option (Dict String String)

pub record CodeHistoryRecord : Type 0 where
  pub entity_id : ℕ
  pub code : String
  pub valid_from : Option Date
  pub valid_to : Option Date
  pub knowledge_time : Option DateTime
  pub version : ℕ

pub record RelationRecord : Type 0 where
  pub entity_id : ℕ
  pub related_id : ℕ
  pub relation_type : String
  pub valid_from : Option Date
  pub valid_to : Option Date
  pub knowledge_time : Option DateTime
  pub version : ℕ

pub record RelationTypeRecord : Type 0 where
  pub relation_type : String
  pub inverse_relation : String
  pub description : String
  pub valid_from : Option Date
  pub valid_to : Option Date
  pub knowledge_time : Option DateTime
  pub version : ℕ

pub record ExternalIdRecord : Type 0 where
  pub entity_id : ℕ
  pub id_type : String
  pub id_value : String
  pub valid_from : Option Date
  pub valid_to : Option Date
  pub knowledge_time : Option DateTime
  pub version : ℕ

-- `covers` on the days of a record: on no day in particular, the open records.
unfoldable pub covers : Option Date → Option Date → Option Date → Bool
covers valid_from none none = true
covers valid_from (some to) none = false
covers none valid_to (some target) = false
covers (some start) none (some target) = leb start target
covers (some start) (some to) (some target) = leb start target && leb target to

-- `_facet` on a value that may be missing
unfoldable pub facet : List String → Option String → Outcome (Option String)
facet allowed none = ok none
facet allowed (some value) = if elem value allowed then ok (some value) else raise value_error

-- `_facet` with `required=True`, on a value that is there
unfoldable pub required_facet : List String → String → Outcome String
required_facet allowed value = if elem value allowed then ok value else raise value_error
