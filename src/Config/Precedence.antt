-- ===== src/Config/Precedence.antt =====
-- blemees_agent/config.py, load: the command line is above the environment, which is above the file.
use blemees_daemon.Prelude.{
  Bool, true, false, not, ◌&&◌, Option, none, some, List, [], ◌∷◌, String, str_eq, eq_iff, is_some,
  if◌then◌else◌, ◌≡◌, refl, ap, ◌∙◌, arith,
}
use blemees_daemon.Prelude.Int.{ℤ}
use blemees_daemon.Json.{Value, Fields, end, field, str, get, insert, update, set_default, and_then}
use blemees_daemon.Json.Laws.{get-insert}
use blemees_daemon.Config.{
  defaults, put_env, collect_env, env_names, env_overrides, is_given, is_field, cli_values, merge,
  coerce, keep, clean, load,
}

-- A dict has each key once.
unfoldable pub is_dict : Fields → Bool
unfolding get
is_dict end = true
is_dict (field k v d) = not (is_some (get k d)) && is_dict d

-- The first value, or else the second.
unfoldable pub over : Option Value → Option Value → Option Value
over none o = o
over (some v) o = some v

get-update :
    (k : String) (d e : Fields) → is_dict e ≡ true → get k (update d e) ≡ over (get k e) (get k d)
unfolding get update over is_dict
get-update k d end h = refl
get-update k d (field j v e) h =
    get-update k (insert j v d) e (ground (arith, h))
    ∙ ground (arith, get-insert j k v d, eq_iff j k, h)

is_dict-insert :
    (k : String) (v : Value) (d : Fields) → is_dict d ≡ true → is_dict (insert k v d) ≡ true
unfolding insert is_dict get
is_dict-insert k v end h = refl
is_dict-insert k v (field j w d) h =
    ground (
      arith,
      h,
      get-insert k j v d,
      eq_iff j k,
      eq_iff k j,
      is_dict-insert k v d (ground (arith, h)),
    )

is_dict-update : (d e : Fields) → is_dict d ≡ true → is_dict (update d e) ≡ true
unfolding update
is_dict-update d end h = h
is_dict-update d (field k v e) h = is_dict-update (insert k v d) e (is_dict-insert k v d h)

is_dict-put_env :
    (j : String) (o : Option String) (d : Fields)
    → is_dict d ≡ true
    → is_dict (put_env j o d) ≡ true
unfolding put_env
is_dict-put_env j none d e = e
is_dict-put_env j (some v) d e = is_dict-insert j (str v) d e

is_dict-collect_env :
    (environ : String → Option String) (names : List (String × String)) (out : Fields)
    → is_dict out ≡ true
    → is_dict (collect_env environ names out) ≡ true
unfolding collect_env
is_dict-collect_env environ [] out h = h
is_dict-collect_env environ ((name, k) ∷ rest) out h =
    is_dict-collect_env environ rest (put_env k (environ name) out)
      (is_dict-put_env k (environ name) out h)

get-if_none :
    (b : Bool) (k j : String) (v : Value) (d e : Fields)
    → get k (field j v d) ≡ none
    → get k e ≡ none
    → get k (if b then field j v e else e) ≡ none
unfolding get
get-if_none true k j v d e h n = ground (arith, h, n)
get-if_none false k j v d e h n = n

is_dict-if :
    (b : Bool) (k : String) (v : Value) (d : Fields)
    → get k d ≡ none
    → is_dict d ≡ true
    → is_dict (if b then field k v d else d) ≡ true
unfolding is_dict
is_dict-if true k v d e h = ground (arith, e, h)
is_dict-if false k v d e h = h

get-cli_values-none :
    (k : String) (args : Fields) → get k args ≡ none → get k (cli_values args) ≡ none
unfolding get cli_values
get-cli_values-none k end h = refl
get-cli_values-none k (field j v args) h =
    get-if_none (is_given j v) k j v args (cli_values args) h
      (get-cli_values-none k args (ground (arith, h)))

is_dict-cli_values : (args : Fields) → is_dict args ≡ true → is_dict (cli_values args) ≡ true
unfolding is_dict cli_values
is_dict-cli_values end h = refl
is_dict-cli_values (field k v args) h =
    is_dict-if (is_given k v) k v (cli_values args) (get-cli_values-none k args (ground (arith, h)))
      (is_dict-cli_values args (ground (arith, h)))

get-set_default :
    (j k : String) (v : Value) (d : Fields)
    → get k (set_default j v d) ≡ over (get k d) (if str_eq j k then some v else none)
unfolding set_default over
get-set_default j k v d = ground (arith, get-insert j k v d, eq_iff j k)

is_dict-set_default :
    (j : String) (v : Value) (d : Fields) → is_dict d ≡ true → is_dict (set_default j v d) ≡ true
unfolding set_default
is_dict-set_default j v d h = ground (arith, h, is_dict-insert j v d h)

-- What the dict holds, if there is one.
unfoldable got : String → Option Fields → Option Value
unfolding get
got k none = none
got k (some c) = get k c

unfoldable all_once : Option Fields → Bool
unfolding is_dict
all_once none = true
all_once (some c) = is_dict c

module _ (to_int : Value → Option ℤ) where
  got-keep :
      (k j : String) (b : Bool) (o : Option Value) (r : Option Fields)
      → is_some (keep to_int b j o r) ≡ true
      → (got k (keep to_int b j o r) ≡ (if b && str_eq j k then o else got k r))
        × (is_some r ≡ true)
  unfolding keep got get
  got-keep k j false o r e = (refl, e)
  got-keep k j true none r e = ground (arith, e)
  got-keep k j true (some v) none e = ground (arith, e)
  got-keep k j true (some v) (some d) e = (refl, refl)

  all_once-keep :
      (j : String) (b : Bool) (o : Option Value) (r : Option Fields)
      → got j r ≡ none
      → all_once r ≡ true
      → all_once (keep to_int b j o r) ≡ true
  unfolding keep got all_once is_dict
  all_once-keep j false o r e h = h
  all_once-keep j true none r e h = refl
  all_once-keep j true (some v) none e h = refl
  all_once-keep j true (some v) (some d) e h = ground (arith, e, h)

  -- What a field was read to be.
  unfoldable pub read : String → Option Value → Option Value
  read k none = none
  read k (some v) = if is_field k then coerce to_int k v else none

  read-none : (k : String) (o : Option Value) → o ≡ none → read k o ≡ none
  unfolding read
  read-none k none e = refl
  read-none k (some v) e = ground (arith, e)

  read-if :
      (j k : String) (v : Value) (o : Option Value)
      → (if is_field j && str_eq j k then coerce to_int j v else read k o)
        ≡ read k (if str_eq j k then some v else o)
  unfolding read
  read-if j k v none = ground (arith, eq_iff j k)
  read-if j k v (some w) = ground (arith, eq_iff j k)

  got-clean :
      (k : String) (d : Fields)
      → is_some (clean to_int d) ≡ true
      → got k (clean to_int d) ≡ read k (get k d)
  unfolding clean get got read
  got-clean k end h = refl
  got-clean k (field j v d) h =
      let e = got-keep k j (is_field j) (coerce to_int j v) (clean to_int d) h in
      e.0
      ∙ ap (λ (o : Option Value). if is_field j && str_eq j k then coerce to_int j v else o)
          (got-clean k d e.1)
      ∙ read-if j k v (get k d)

  all_once-clean :
      (d : Fields)
      → is_some (clean to_int d) ≡ true
      → is_dict d ≡ true
      → all_once (clean to_int d) ≡ true
  unfolding clean is_dict all_once
  all_once-clean end h u = refl
  all_once-clean (field j v d) h u =
      let e = got-keep j j (is_field j) (coerce to_int j v) (clean to_int d) h in
      all_once-keep j (is_field j) (coerce to_int j v) (clean to_int d)
        (got-clean j d e.1 ∙ read-none j (get j d) (ground (arith, u)))
        (all_once-clean d e.1 (ground (arith, u)))

over_assoc : (a b c : Option Value) → over (over a b) c ≡ over a (over b c)
unfolding over
over_assoc none b c = refl
over_assoc (some v) b c = refl

-- The field of the highest source that has it.
unfoldable pub chosen : String → String → Fields → Fields → Fields → Option Value
unfolding over get
chosen k socket file_values env_values cli_args = over (get k cli_args) (
    over (get k env_values)
      (over (get k file_values) (if str_eq "socket_path" k then some (str socket) else none)))

get-merge :
    (k socket : String) (f e a : Fields)
    → is_dict e ≡ true
    → is_dict a ≡ true
    → get k (merge socket f e a) ≡ chosen k socket f e a
unfolding merge chosen
get-merge k socket f e a he ha =
    let s : Option Value = if str_eq "socket_path" k then some (str socket) else none in
    get-set_default "socket_path" k (str socket) (update (update f e) a)
    ∙ ap (λ (o : Option Value). over o s) (get-update k (update f e) a ha)
    ∙ ap (λ (o : Option Value). over (over (get k a) o) s) (get-update k f e he)
    ∙ over_assoc (get k a) (over (get k e) (get k f)) s
    ∙ ap (over (get k a)) (over_assoc (get k e) (get k f) s)

get-loaded :
    (k : String) (o : Option Fields) (c : Fields) (v : Option Value)
    → and_then o (λ cleaned. some (update defaults cleaned)) ≡ some c
    → all_once o ≡ true
    → (is_some o ≡ true → got k o ≡ v)
    → get k c ≡ over v (get k defaults)
unfolding got all_once
get-loaded k none c v e h g = ground (arith, e)
get-loaded k (some d) c v e h g =
    let same : c ≡ update defaults d = ground (arith, e) in
    ap (get k) same
    ∙ get-update k defaults d h
    ∙ ap (λ (o : Option Value). over o (get k defaults)) (g refl)

is_dict-merge :
    (socket : String) (f e a : Fields) → is_dict f ≡ true → is_dict (merge socket f e a) ≡ true
unfolding merge
is_dict-merge socket f e a h =
    is_dict-set_default "socket_path" (str socket) (update (update f e) a)
      (is_dict-update (update f e) a (is_dict-update f e h))

once_if_some : (o : Option Fields) → (is_some o ≡ true → all_once o ≡ true) → all_once o ≡ true
unfolding all_once
once_if_some none h = refl
once_if_some (some d) h = h refl

-- In a configuration that was loaded, each field has the value of the command line, or else of the
-- environment, or else of the file, or else, for the socket, of the runtime directory, read by the
-- field's type; and its default where none of them gives it. A key that is no field is passed over.
-- Conditions: the parsed file and arguments hold each key once, and every number can be read.
pub get-load :
    (to_int : Value → Option ℤ) (socket : String) (file_values : Fields)
    (environ : String → Option String) (args : Fields) (k : String) (c : Fields)
    → is_dict file_values ≡ true
    → is_dict args ≡ true
    → load to_int socket file_values environ args ≡ some c
    → get k c
      ≡ over
          (read to_int k (chosen k socket file_values (env_overrides environ) (cli_values args)))
          (get k defaults)
unfolding load env_overrides is_dict
get-load to_int socket f environ args k c hf ha e =
    let env = env_overrides environ in
    let cli = cli_values args in
    let m = merge socket f env cli in
    let he = is_dict-collect_env environ env_names end refl in
    let hc = is_dict-cli_values args ha in
    let hm = is_dict-merge socket f env cli hf in
    get-loaded k (clean to_int m) c (read to_int k (chosen k socket f env cli)) e
      (once_if_some (clean to_int m) (λ s. all_once-clean to_int m s hm))
      (λ s. got-clean to_int k m s ∙ ap (read to_int k) (get-merge k socket f env cli he hc))
