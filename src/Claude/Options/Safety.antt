-- ===== src/Claude/Options/Safety.antt =====
-- blemees_agent/backends/claude.py: options that pass `validate_options` put no unsafe flag into the
-- argument vector.
use blemees_daemon.Prelude.{
  ◌≡◌, refl, Bool, true, false, Option, none, some, List, [], ◌∷◌, map, String, str_eq,
  if◌then◌else◌, arith, All, All-append, Bool-cases, inl, inr,
}
use blemees_daemon.Json.{
  is_in, Value, Fields, Items, null, bool, int, float, str, arr, obj, nil, cons, end, field, get,
  keys, items, get_obj, as_obj, as_str, and_then,
}
use blemees_daemon.Errors.{Result, ok, err, ◌>>◌}
use blemees_daemon.Protocol.{truthy}
use blemees_daemon.Claude.Options.{
  is_unsafe, check_text, check_items, check_value, check_values, check_keys, validate_options,
  Printer, text_of, add_value, iterate, flag_list, add_list, each_flag, flag_each, add_each,
  add_json, add_switch, add_off, ◌+++◌, option_argv,
}

-- No token is an unsafe flag.
abbrev pub Safe : List String → Type 0
Safe = All (λ x. is_unsafe x ≡ false)

abbrev pub SafeOption : Option (List String) → Type 0
SafeOption none = Unit
SafeOption (some xs) = Safe xs

record IsSafe (o : Option (List String)) : Type 0 where
  safe : SafeOption o

append-Safe :
    (xs ys : Option (List String)) → SafeOption xs → SafeOption ys → SafeOption (xs +++ ys)
append-Safe none ys h k = tt
append-Safe (some xs) none h k = tt
append-Safe (some xs) (some ys) h k = All-append (λ x. is_unsafe x ≡ false) xs ys h k

append-IsSafe : {xs ys : Option (List String)} → IsSafe xs → IsSafe ys → IsSafe (xs +++ ys)
append-IsSafe {xs} {ys} h k = record { safe = append-Safe xs ys h.safe k.safe }

check_text-ok : (s : String) → check_text s ≡ ok tt → is_unsafe s ≡ false
unfolding check_text
check_text-ok s h = elim (Bool-cases (is_unsafe s)) [ inl e ↦ ground (arith, e, h) | inr e ↦ e ]

first-ok : (a b : Result (Unit {0})) → (a >> b) ≡ ok tt → (a ≡ ok tt) × (b ≡ ok tt)
first-ok (ok u) b h = (refl, h)
first-ok (err e) b h = cc

-- The value that a key has passed the check, if it is there.
Checked : Option Value → Type 0
Checked none = Unit
Checked (some v) = check_value v ≡ ok tt

get-Checked : (k : String) (f : Fields) → check_values f ≡ ok tt → Checked (get k f)
unfolding Checked check_values get
get-Checked k end h = tt
get-Checked k (field j v d) h =
    let (first, rest) = first-ok (check_value v) (check_values d) h in
    elim (Bool-cases (str_eq j k)) [ inl e ↦ rw (e) first | inr e ↦ rw (e) (get-Checked k d rest) ]

-- What the printers are trusted with: no value that is no text, no JSON, and no part of a text, prints
-- as an unsafe flag.
pub record IsPlain (p : Printer) (chars : String → List String) : Type 0 where
  pub to_text : (v : Value) → as_str v ≡ none → is_unsafe (p.to_text v) ≡ false
  pub dumps : (v : Value) → is_unsafe (p.dumps v) ≡ false
  pub parts : (s : String) → Safe (chars s)

module _ (p : Printer) (chars : String → List String) (plain : IsPlain p chars) where
  text_of-safe : (v : Value) → check_value v ≡ ok tt → is_unsafe (text_of p v) ≡ false
  unfolding text_of check_value
  text_of-safe (str s) h = check_text-ok s h
  text_of-safe null h = plain.to_text null refl
  text_of-safe (bool b) h = plain.to_text (bool b) refl
  text_of-safe (int n) h = plain.to_text (int n) refl
  text_of-safe (float t) h = plain.to_text (float t) refl
  text_of-safe (arr vs) h = plain.to_text (arr vs) refl
  text_of-safe (obj d) h = plain.to_text (obj d) refl

  add_value-Safe :
      (flag : String) (o : Option Value)
      → is_unsafe flag ≡ false
      → Checked o
      → Safe (add_value p flag o)
  unfolding add_value Checked
  add_value-Safe flag none e h = tt
  add_value-Safe flag (some null) e h = tt
  add_value-Safe flag (some (str s)) e h = (e, (text_of-safe (str s) h, tt))
  add_value-Safe flag (some (bool b)) e h = (e, (text_of-safe (bool b) h, tt))
  add_value-Safe flag (some (int n)) e h = (e, (text_of-safe (int n) h, tt))
  add_value-Safe flag (some (float t)) e h = (e, (text_of-safe (float t) h, tt))
  add_value-Safe flag (some (arr vs)) e h = (e, (text_of-safe (arr vs) h, tt))
  add_value-Safe flag (some (obj d)) e h = (e, (text_of-safe (obj d) h, tt))

  items-Safe : (vs : Items) → check_items vs ≡ ok tt → Safe (map (text_of p) (items vs))
  unfolding check_items items text_of
  items-Safe nil h = tt
  items-Safe (cons (str s) vs) h =
      let (first, rest) = first-ok (check_text s) (check_items vs) h in
      (check_text-ok s first, items-Safe vs rest)
  items-Safe (cons null vs) h = (plain.to_text null refl, items-Safe vs h)
  items-Safe (cons (bool b) vs) h = (plain.to_text (bool b) refl, items-Safe vs h)
  items-Safe (cons (int n) vs) h = (plain.to_text (int n) refl, items-Safe vs h)
  items-Safe (cons (float t) vs) h = (plain.to_text (float t) refl, items-Safe vs h)
  items-Safe (cons (arr ws) vs) h = (plain.to_text (arr ws) refl, items-Safe vs h)
  items-Safe (cons (obj d) vs) h = (plain.to_text (obj d) refl, items-Safe vs h)

  iterate-Safe :
      (v : Value) → check_value v ≡ ok tt → as_obj v ≡ none → SafeOption (iterate p chars v)
  unfolding iterate check_value
  iterate-Safe (arr vs) h n = items-Safe vs h
  iterate-Safe (str s) h n = plain.parts s
  iterate-Safe (obj d) h n = ground (arith, n)
  iterate-Safe null h n = tt
  iterate-Safe (bool b) h n = tt
  iterate-Safe (int k) h n = tt
  iterate-Safe (float t) h n = tt

  flag_list-Safe :
      (flag : String) (o : Option (List String))
      → is_unsafe flag ≡ false
      → SafeOption o
      → SafeOption (flag_list p flag o)
  unfolding flag_list
  flag_list-Safe flag none e h = tt
  flag_list-Safe flag (some xs) e h = (e, h)

  each_flag-Safe :
      (flag : String) (xs : List String)
      → is_unsafe flag ≡ false
      → Safe xs
      → Safe (each_flag p flag xs)
  unfolding each_flag
  each_flag-Safe flag [] e h = tt
  each_flag-Safe flag (x ∷ xs) e h = (e, (h.0, each_flag-Safe flag xs e h.1))

  flag_each-Safe :
      (flag : String) (o : Option (List String))
      → is_unsafe flag ≡ false
      → SafeOption o
      → SafeOption (flag_each p flag o)
  unfolding flag_each
  flag_each-Safe flag none e h = tt
  flag_each-Safe flag (some xs) e h = each_flag-Safe flag xs e h

  if-Safe :
      (b : Bool) (o : Option (List String)) → SafeOption o → SafeOption (if b then o else some [])
  if-Safe true o h = h
  if-Safe false o h = tt

  add_list-Safe :
      (flag : String) (o : Option Value)
      → is_unsafe flag ≡ false
      → Checked o
      → and_then o as_obj ≡ none
      → SafeOption (add_list p chars flag o)
  unfolding add_list Checked
  add_list-Safe flag none e h n = tt
  add_list-Safe flag (some v) e h n =
      if-Safe (truthy v) _ (flag_list-Safe flag (iterate p chars v) e (iterate-Safe v h n))

  add_each-Safe :
      (flag : String) (o : Option Value)
      → is_unsafe flag ≡ false
      → Checked o
      → and_then o as_obj ≡ none
      → SafeOption (add_each p chars flag o)
  unfolding add_each Checked
  add_each-Safe flag none e h n = tt
  add_each-Safe flag (some v) e h n =
      if-Safe (truthy v) _ (flag_each-Safe flag (iterate p chars v) e (iterate-Safe v h n))

  add_json-Safe :
      (flag : String) (o : Option Value)
      → is_unsafe flag ≡ false
      → Checked o
      → Safe (add_json p flag o)
  unfolding add_json Checked check_value
  add_json-Safe flag none e h = tt
  add_json-Safe flag (some null) e h = tt
  add_json-Safe flag (some (str s)) e h = (e, (check_text-ok s h, tt))
  add_json-Safe flag (some (bool b)) e h = (e, (plain.dumps (bool b), tt))
  add_json-Safe flag (some (int n)) e h = (e, (plain.dumps (int n), tt))
  add_json-Safe flag (some (float t)) e h = (e, (plain.dumps (float t), tt))
  add_json-Safe flag (some (arr vs)) e h = (e, (plain.dumps (arr vs), tt))
  add_json-Safe flag (some (obj d)) e h = (e, (plain.dumps (obj d), tt))

add_switch-Safe :
    (flag : String) (o : Option Value) → is_unsafe flag ≡ false → Safe (add_switch flag o)
unfolding add_switch
add_switch-Safe flag none e = tt
add_switch-Safe flag (some v) e = elim (Bool-cases (truthy v)) [
  | inl t ↦ rw (t) (e, tt)
  | inr t ↦ rw (t) tt
]

add_off-Safe : (flag : String) (o : Option Value) → is_unsafe flag ≡ false → Safe (add_off flag o)
unfolding add_off
add_off-Safe flag none e = tt
add_off-Safe flag (some (bool false)) e = (e, tt)
add_off-Safe flag (some (bool true)) e = tt
add_off-Safe flag (some null) e = tt
add_off-Safe flag (some (str s)) e = tt
add_off-Safe flag (some (int n)) e = tt
add_off-Safe flag (some (float t)) e = tt
add_off-Safe flag (some (arr vs)) e = tt
add_off-Safe flag (some (obj d)) e = tt

-- The options that `build_argv` iterates over are no objects.
pub record HasLists (f : Fields) : Type 0 where
  pub disallowed : get_obj "disallowed_tools" f ≡ none
  pub dirs : get_obj "add_dir" f ≡ none
  pub servers : get_obj "mcp_config" f ≡ none
  pub plugins : get_obj "plugin_dir" f ≡ none
  pub betas : get_obj "betas" f ≡ none

-- Options that pass `validate_options`, and give no object where a list is expected, put no unsafe
-- flag into the argument vector, neither as a flag nor as a value. Condition: no number, JSON text or
-- single character prints as an unsafe flag.
pub option_argv-Safe :
    (p : Printer) (chars : String → List String) (f : Fields)
    → IsPlain p chars
    → validate_options f ≡ ok tt
    → HasLists f
    → SafeOption (option_argv p chars f)
unfolding option_argv validate_options is_unsafe is_in
option_argv-Safe p chars f plain h lists =
    let checked : (k : String) → Checked (get k f) =
      λ k. get-Checked k f (first-ok (check_keys (keys f)) (check_values f) h).1 in
    let value : (flag k : String)
        → is_unsafe flag ≡ false
        → IsSafe (some (add_value p flag (get k f))) =
      λ flag k e. record { safe = add_value-Safe p chars plain flag (get k f) e (checked k) } in
    let list : (flag k : String)
        → is_unsafe flag ≡ false
        → get_obj k f ≡ none
        → IsSafe (add_list p chars flag (get k f)) =
      λ flag k e n. record { safe = add_list-Safe p chars plain flag (get k f) e (checked k) n } in
    let each : (flag k : String)
        → is_unsafe flag ≡ false
        → get_obj k f ≡ none
        → IsSafe (add_each p chars flag (get k f)) =
      λ flag k e n. record { safe = add_each-Safe p chars plain flag (get k f) e (checked k) n } in
    let json : (flag k : String)
        → is_unsafe flag ≡ false
        → IsSafe (some (add_json p flag (get k f))) =
      λ flag k e. record { safe = add_json-Safe p chars plain flag (get k f) e (checked k) } in
    let switch : (flag k : String)
        → is_unsafe flag ≡ false
        → IsSafe (some (add_switch flag (get k f))) =
      λ flag k e. record { safe = add_switch-Safe flag (get k f) e } in
    let off : (flag k : String) → is_unsafe flag ≡ false → IsSafe (some (add_off flag (get k f))) =
      λ flag k e. record { safe = add_off-Safe flag (get k f) e } in
    let whole = append-IsSafe (value "--model" "model" refl) (
      append-IsSafe (value "--system-prompt" "system_prompt" refl) (
        append-IsSafe (value "--append-system-prompt" "append_system_prompt" refl) (
          append-IsSafe (value "--tools" "tools" refl) (
            append-IsSafe (list "--disallowedTools" "disallowed_tools" refl lists.disallowed) (
              append-IsSafe (value "--permission-mode" "permission_mode" refl) (
                append-IsSafe (list "--add-dir" "add_dir" refl lists.dirs) (
                  append-IsSafe (value "--effort" "effort" refl) (
                    append-IsSafe (value "--agent" "agent" refl) (
                      append-IsSafe (json "--agents" "agents" refl) (
                        append-IsSafe (list "--mcp-config" "mcp_config" refl lists.servers) (
                          append-IsSafe (switch "--strict-mcp-config" "strict_mcp_config" refl) (
                            append-IsSafe (value "--settings" "settings" refl) (
                              append-IsSafe (value "--setting-sources" "setting_sources" refl) (
                                append-IsSafe (each "--plugin-dir" "plugin_dir" refl lists.plugins)
                                  (append-IsSafe (list "--betas" "betas" refl lists.betas) (
                                    append-IsSafe
                                      (switch "--exclude-dynamic-system-prompt-sections"
                                        "exclude_dynamic_system_prompt_sections" refl)
                                      (append-IsSafe
                                        (value "--max-budget-usd" "max_budget_usd" refl)
                                        (append-IsSafe (json "--json-schema" "json_schema" refl) (
                                          append-IsSafe
                                            (value "--fallback-model" "fallback_model" refl)
                                            (append-IsSafe (value "-n" "session_name" refl) (
                                              append-IsSafe
                                                (off "--no-session-persistence"
                                                  "session_persistence" refl)
                                                (append-IsSafe
                                                  (switch "--include-partial-messages"
                                                    "include_partial_messages" refl)
                                                  (switch "--replay-user-messages" "user_echo"
                                                    refl))))))))))))))))))))))) in
    whole.safe
