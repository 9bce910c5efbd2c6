-- ===== src/Json.antt =====
-- JSON values as Python holds them, and its `dict` of text keys in insertion order: what the wire
-- frames, options and translated events are made of (protocol.py, session.py, backends/).
pub mod Laws
use blemees_daemon.Prelude.{
  ℕ, zero, suc, String, Bool, true, false, not, Option, none, some, List, [], ◌∷◌, ◌++◌, str_eq,
  if◌then◌else◌, is_some, any,
}
use blemees_daemon.Prelude.Int.{ℤ, pos, negsuc}

-- A float is kept as its text: the daemon passes floats on and, but for one rate-limit stamp,
-- computes with none.
mutual
  pub data Value : Type 0 where
    null : Value
    bool : Bool → Value
    int : ℤ → Value
    float : String → Value
    str : String → Value
    obj : Fields → Value
    arr : Items → Value

  pub data Items : Type 0 where
    nil : Items
    cons : Value → Items → Items

  pub data Fields : Type 0 where
    end : Fields
    field : String → Value → Fields → Fields

-- d.get(k)
unfoldable pub get : String → Fields → Option Value
get k end = none
get k (field j v d) = if str_eq j k then some v else get k d

-- d[k] = v, which keeps the place of a key that is there.
unfoldable pub insert : String → Value → Fields → Fields
insert k v end = field k v end
insert k v (field j w d) = if str_eq j k then field j v d else field j w (insert k v d)

-- d.setdefault(k, v)
unfoldable pub set_default : String → Value → Fields → Fields
unfolding get insert
set_default k v d = if is_some (get k d) then d else insert k v d

unfoldable pub keys : Fields → List String
keys end = []
keys (field k v d) = k ∷ keys d

-- {**d, **e}, and d.update(e)
unfoldable pub update : Fields → Fields → Fields
unfolding insert
update d end = d
update d (field k v e) = update (insert k v d) e

-- x in xs
unfoldable pub is_in : String → List String → Bool
is_in x xs = any (λ y. str_eq y x) xs

unfoldable pub items : Items → List Value
items nil = []
items (cons v vs) = v ∷ items vs

unfoldable pub of_items : List Value → Items
of_items [] = nil
of_items (v ∷ vs) = cons v (of_items vs)

-- isinstance(v, str), as the text itself
abbrev pub as_str : Value → Option String
as_str (str s) = some s
as_str _ = none

-- isinstance(v, int): Python's `bool` is an `int`
abbrev pub as_int : Value → Option ℤ
as_int (int n) = some n
as_int (bool true) = some (pos 1)
as_int (bool false) = some (pos 0)
as_int _ = none

-- isinstance(v, dict)
abbrev pub as_obj : Value → Option Fields
as_obj (obj d) = some d
as_obj _ = none

-- isinstance(v, list)
abbrev pub as_arr : Value → Option (List Value)
unfolding items
as_arr (arr vs) = some (items vs)
as_arr _ = none

abbrev pub and_then {ℓ κ} : {A : Type ℓ} {B : Type κ} → Option A → (A → Option B) → Option B
and_then none f = none
and_then (some a) f = f a

-- A field that must have the type, or is not there.
abbrev pub get_str : String → Fields → Option String
get_str k d = and_then (get k d) as_str

abbrev pub get_int : String → Fields → Option ℤ
get_int k d = and_then (get k d) as_int

abbrev pub get_obj : String → Fields → Option Fields
get_obj k d = and_then (get k d) as_obj

abbrev pub num : ℕ → Value
num n = int (pos n)
