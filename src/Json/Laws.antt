-- ===== src/Json/Laws.antt =====
-- Laws of the dictionary.
use blemees_daemon.Prelude.{
  String, ◌≡◌, refl, false, some, str_eq, eq_iff, eq_refl, arith, if◌then◌else◌,
}
use blemees_daemon.Json.{Value, Fields, end, field, get, insert, set_default}

pub get-insert :
    (k j : String) (v : Value) (d : Fields)
    → get j (insert k v d) ≡ (if str_eq k j then some v else get j d)
unfolding get insert
get-insert k j v end = refl
get-insert k j v (field i w d) =
    ground (arith, eq_iff k j, eq_iff i k, eq_iff i j, get-insert k j v d)

pub get-insert_self : (k : String) (v : Value) (d : Fields) → get k (insert k v d) ≡ some v
get-insert_self k v d = simp (get-insert, eq_refl)

pub get-set_default :
    (k j : String) (v : Value) (d : Fields)
    → str_eq k j ≡ false
    → get j (set_default k v d) ≡ get j d
unfolding set_default
get-set_default k j v d h = ground (arith, get-insert k j v d)
