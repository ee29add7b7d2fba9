-- ===== src/Agent/Codec.antt =====
-- The text codecs that the code takes from json and pydantic, as a parameter.
use quellgeist.Base.{String, Option}
use quellgeist.Signals.{Value, Row}
use quellgeist.Agent.Schema.{Diagnosis}

-- `raw_decode` reads one JSON value at the start of a text; `str_of` is `str()` of a value that is
-- no string; `as_json` is `json.loads(d.model_dump_json())`; `coerce` reads the fields of a diagnosis from a dict, before any validator has run.
pub record Codec : Type 0 where
  pub raw_decode : String → Option Value
  pub dumps : Value → String
  pub str_of : Value → String
  pub coerce : Row → Option Diagnosis
  pub as_json : Diagnosis → Value
  pub model_dump_json : Diagnosis → String
  pub model_validate_json : String → Option Diagnosis
