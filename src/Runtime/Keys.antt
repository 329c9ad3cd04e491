-- ===== src/Runtime/Keys.antt =====
-- src/fin_data_platform/runtime/keys.py. The JSON text and its SHA-256 digest are the argument
-- `digest`: a function of the six entries of the payload.
use fin_data_platform.Prelude.{
  ◌≡◌, String, Bool, false, not, ◌||◌, ◌&&◌, Option, none, some, ◌==◌, string_eq, if◌then◌else◌,
  arith,
}
use fin_data_platform.Outcome.{Outcome, ok, raise, value_error, ◌>>◌}
use fin_data_platform.Runtime.Models.{Date}

-- `kind in VERSIONED_KINDS`
unfoldable pub is_versioned : String → Bool
is_versioned kind = kind == "derive" || kind == "build_rm"

-- The truth value of `version_dimension`: `None` and the empty text are false.
unfoldable pub is_given : Option String → Bool
is_given none = false
is_given (some text) = not (text == "")

unfoldable pub validate_version_dimension : String → Option String → Outcome (Unit {0})
validate_version_dimension kind version_dimension =
    if is_versioned kind
    then (if not (is_given version_dimension) then raise value_error else ok tt)
    else (if is_given version_dimension then raise value_error else ok tt)

pub record Payload : Type 0 where
  pub kind : String
  pub job_id : String
  pub scope : String
  pub window_start : Option Date
  pub window_end : Option Date
  pub version_dimension : Option String

unfoldable pub job_key : (Payload → String) → Payload → Outcome String
job_key digest p = do validate_version_dimension p.kind p.version_dimension; ok (digest p)

-- A version is accepted exactly on the versioned kinds.
pub validate_version_dimension_iff :
    (kind : String) (v : Option String)
    → validate_version_dimension kind v ≡ (
        if (is_versioned kind && is_given v) || (not (is_versioned kind) && not (is_given v))
        then ok tt
        else raise value_error)
unfolding validate_version_dimension
validate_version_dimension_iff kind v = ground arith
