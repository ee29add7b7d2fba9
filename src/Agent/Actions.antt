-- ===== src/Agent/Actions.antt =====
-- agent/actions.py: the first JSON object in a model's reply.
pub mod First
use Prim.Native.Char.{Char, code}
use quellgeist.Base.{String, Bool, true, false, Option, none, some, if◌then◌else◌, nat_beq}
use quellgeist.Effects.{Result, ok, raise, json_action_error}
use quellgeist.Signals.{Value, dict, Row}
use quellgeist.Agent.Codec.{Codec}

-- What `raw_decode` found, if it is a JSON object.
unfoldable pub object_of : Option Value → Option Row
object_of (some (dict row)) = some row
object_of _ = none

-- The scan goes from one `{` to the next.
unfoldable pub scan : Codec → String → Option Row
scan codec String.[] = none
scan codec (String.◌∷◌ c s) =
    let later = scan codec s in
    let here = object_of (codec.raw_decode (String.◌∷◌ c s)) in
    if nat_beq (code c) b'{' then elim here [ some row ↦ some row | none ↦ later ] else later

unfoldable pub or_action_error : Option Row → Result Row
or_action_error (some row) = ok row
or_action_error none = raise (json_action_error "no JSON object found in model output")

unfoldable pub extract_json : Codec → String → Result Row
unfolding or_action_error
extract_json codec text = or_action_error (scan codec text)
