-- ===== src/Frames.antt =====
-- What the two translators of blemees_agent/backends/ share: the building of a frame, field by field,
-- and the frames that end a turn.
pub mod Types
use blemees_daemon.Prelude.{
  ℕ, ◌+◌, ◌*◌, Bool, true, false, Option, none, some, List, [], ◌∷◌, String, str_eq, if◌then◌else◌,
  ◌==◌, ◌&&◌,
}
use blemees_daemon.Prelude.Int.{ℤ, pos, negsuc}
use blemees_daemon.Json.{
  Value, Fields, null, bool, int, float, str, arr, obj, nil, cons, end, field, get, insert,
  and_then, as_int, is_in,
}
use blemees_daemon.Protocol.{truthy}
use Prim.Native.Char.{code}
use Prim.Native.String
use Prim.Native.String.{◌++◌ as text_append}

-- Python's methods on a text, and `int(resets * 1000)` of a float (`none` where it raises).
pub record Texts : Type 0 where
  pub lower : String → String
  pub contains : String → String → Bool
  pub ends_with : String → String → Bool
  pub float_ms : String → Option ℤ

-- value == s
unfoldable pub is_text : String → Option Value → Bool
is_text s (some (str t)) = str_eq t s
is_text s _ = false

-- if raw is not None: frame["raw"] = raw
unfoldable pub with_raw : Option Fields → Fields → Fields
unfolding insert
with_raw none f = f
with_raw (some r) f = insert "raw" (obj r) f

-- if isinstance(d.get(k), str): frame[k] = d[k]
unfoldable pub with_text : String → Option Value → Fields → Fields
unfolding insert
with_text k (some (str s)) f = insert k (str s) f
with_text k _ f = f

unfoldable pub keep_int : String → Value → Option ℤ → Fields → Fields
unfolding insert
keep_int k v none f = f
keep_int k v (some n) f = insert k v f

-- if isinstance(v, int): frame[k] = v
unfoldable pub with_int : String → Option Value → Fields → Fields
unfolding keep_int
with_int k none f = f
with_int k (some v) f = keep_int k v (as_int v) f

-- if d: frame[k] = d
unfoldable pub with_fields : String → Fields → Fields → Fields
unfolding insert
with_fields k end f = f
with_fields k (field j v d) f = insert k (obj (field j v d)) f

unfoldable pub value_or : Value → Option Value → Value
value_or w none = w
value_or w (some v) = v

-- d.get(k) or {}
unfoldable pub or_empty : Option Value → Value
unfolding truthy
or_empty none = obj end
or_empty (some v) = if truthy v then v else obj end

unfoldable pub as_dict : Value → Option Fields
as_dict (obj d) = some d
as_dict _ = none

-- `d.get(k) or {}`, on which `.get` is called next
unfoldable pub dict_or_empty : Option Value → Option Fields
unfolding or_empty as_dict
dict_or_empty v = as_dict (or_empty v)

-- {k: v for k, v in d.items() if k not in ks}
unfoldable pub without : List String → Fields → Fields
unfolding is_in
without ks end = end
without ks (field k v d) = let rest = without ks d in if is_in k ks then rest else field k v rest

unfoldable pub notice : String → Fields
notice category =
    field "type" (str "agent.notice")
      (field "level" (str "info") (field "category" (str category) end))

-- f"{prefix}_{name}" of a text, and the prefix alone of anything else
unfoldable pub category_of : String → Option Value → String
category_of prefix (some (str name)) = text_append prefix (text_append "_" name)
category_of prefix _ = prefix

-- n * 1000
unfoldable pub thousandfold : ℤ → ℤ
thousandfold (pos n) = pos (n * 1000)
thousandfold (negsuc n) = negsuc (n * 1000 + 999)

-- int(v * 1000), if isinstance(v, (int, float)); the float's product may be no integer (`none`).
unfoldable pub ms_of : (String → Option ℤ) → Option Value → Option (Option ℤ)
unfolding thousandfold
ms_of float_ms (some (float t)) = and_then (float_ms t) (λ n. some (some n))
ms_of float_ms (some (int n)) = some (some (thousandfold n))
ms_of float_ms (some (bool true)) = some (some (pos 1000))
ms_of float_ms (some (bool false)) = some (some (pos 0))
ms_of float_ms _ = some none

unfoldable pub put_ms : String → Option ℤ → Fields → Fields
unfolding insert
put_ms k none f = f
put_ms k (some n) f = insert k (int n) f

-- The field `k` in milliseconds, of a time in seconds.
unfoldable pub with_ms : (String → Option ℤ) → String → Option Value → Fields → Option Fields
unfolding ms_of put_ms
with_ms float_ms k v f = and_then (ms_of float_ms v) (λ m. some (put_ms k m f))

-- A frame whose type is in TURN_END_TYPES
unfoldable pub ends_turn : Fields → Bool
unfolding is_text
ends_turn f = is_text "agent.result" (get "type" f)

-- text.startswith(prefix)
unfoldable pub starts_with : String → String → Bool
starts_with String.[] s = true
starts_with (String.◌∷◌ c p) String.[] = false
starts_with (String.◌∷◌ c p) (String.◌∷◌ d s) = code c == code d && starts_with p s

-- if k in d and d[k] is not None: frame[k] = d[k]
unfoldable pub put_present : String → Option Value → Fields → Fields
unfolding insert
put_present k none f = f
put_present k (some null) f = f
put_present k (some v) f = insert k v f

-- The same, for each of the keys.
unfoldable pub copy_present : List String → Fields → Fields → Fields
unfolding put_present
copy_present [] d f = f
copy_present (k ∷ ks) d f = copy_present ks d (put_present k (get k d) f)
