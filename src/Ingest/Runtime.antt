-- ===== src/Ingest/Runtime.antt =====
-- What the ingest code takes from Python and its standard library, as a parameter.
use quellgeist.Base.{String, Option, ℤ}
use quellgeist.Effects.{Result}
use quellgeist.Signals.{Value, Number}

-- `str_of` is `str(value)`, `lower` and `upper` are the methods of `str`, `int_of_text` is `int(text)`
-- with `none` for its ValueError, `float_of_int` and `float_of_text` are `float`, `thousandth` is
-- `num / 1000.0`. `utc_of_iso` reads a text by `datetime.fromisoformat` and prints the time in UTC,
-- `utc_of_epoch` is `datetime.fromtimestamp(num, tz=UTC)` printed; both may raise. `loads` is
-- `json.loads` with `none` for a JSONDecodeError. `group_at_start` and `group_within` are the first
-- group of `re.match` and `re.search` for a pattern in a text.
pub record Runtime : Type 0 where
  pub str_of : Value → String
  pub lower : String → String
  pub upper : String → String
  pub int_of_text : String → Option ℤ
  pub float_of_int : ℤ → Result Number
  pub float_of_text : String → Result Number
  pub thousandth : Number → Number
  pub utc_of_iso : String → Result String
  pub utc_of_epoch : Number → Result String
  pub loads : String → Option Value
  pub group_at_start : String → String → Option String
  pub group_within : String → String → Option String
