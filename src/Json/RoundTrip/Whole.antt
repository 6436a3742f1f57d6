-- ===== src/Json/RoundTrip/Whole.antt =====
-- `json.loads(json.dumps(value))`
use Prim.Native.String.{count}
use mts_true_tech_hack.Base.{◌+◌, ◌*◌, Bool, true, false, ◌≡◌, refl, arith}
use mts_true_tech_hack.Base.Result.{ok}
use mts_true_tech_hack.Json.{Json}
use mts_true_tech_hack.Json.Dumps.{dump, dumps, dumps_ascii}
use mts_true_tech_hack.Json.Loads.{loads, skip_blanks}
use mts_true_tech_hack.Json.RoundTrip.Plain.{IsPlain}
use mts_true_tech_hack.Json.RoundTrip.Values.{value_read, skip_blanks-dump}
use mts_true_tech_hack.Json.RoundTrip.Sizes.{size-dump, count-eq-chars}

loads-dump : (ascii : Bool) (v : Json) → IsPlain v → loads (dump ascii v "") ≡ ok v
unfolding loads skip_blanks
loads-dump ascii v p =
    rw
      (
        skip_blanks-dump ascii v "" p,
        value_read v (2 * count (dump ascii v "") + 2) ascii "" p
            (omega (arith, size-dump v ascii "" p, count-eq-chars (dump ascii v ""))),
      )
      refl

-- `json.loads` reads back what `json.dumps(value, ensure_ascii=False)` has printed, for every value
-- of texts, constants, lists and dicts without a key twice.
pub loads-dumps : (v : Json) → IsPlain v → loads (dumps v) ≡ ok v
unfolding dumps
loads-dumps v p = loads-dump false v p

-- The same with `json.dumps(value)`, which prints every code point above 126 as an escape, or as two
-- above 65535: `json.loads` reads back every value of texts, constants, lists and dicts without a
-- key twice.
pub loads-dumps_ascii : (v : Json) → IsPlain v → loads (dumps_ascii v) ≡ ok v
unfolding dumps_ascii
loads-dumps_ascii v p = loads-dump true v p
