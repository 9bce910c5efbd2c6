-- ===== src/Protocol/Opens.antt =====
-- blemees_agent/protocol.py, parse_open: what an open message that passes the parser has.
use blemees_daemon.Prelude.{
  ◌≡◌, refl, subst, Bool, true, false, not, Option, none, some, List, [], ◌∷◌, String, str_eq, any,
  arith, All, select, Bool-cases, inl, inr,
}
use blemees_daemon.Json.{Value, Fields, null, bool, int, float, str, arr, obj, get, keys}
use blemees_daemon.Errors.{Result, ok, err, ◌>>=◌, refuse_if, BlemeesError, unknown_backend_error}
use blemees_daemon.Protocol.{
  OpenMessage, is_known_backend, contains, reject_extra_keys, non_empty_str, open_top_level,
  options_object, backend_block, known_blocks, parse_open, req_id, optional_seq, optional_str,
}

-- A chain that succeeds: its first step, and the rest.
ok->>= {ℓ κ} :
    {A : Type ℓ} {B : Type κ} (m : Result A) (f : A → Result B) (b : B)
    → (m >>= f) ≡ ok b
    → (a : A) × (m ≡ ok a) × (f a ≡ ok b)
ok->>= (ok a) f b h = (a, refl, h)
ok->>= (err e) f b h = cc

ok-injective {ℓ} : {A : Type ℓ} (a b : A) → ok a ≡ ok b → a ≡ b
ok-injective a b h = cc

refuse_if-ok : (bad : Bool) (e : BlemeesError) (u : Unit {0}) → refuse_if bad e ≡ ok u → bad ≡ false
refuse_if-ok true e u h = cc
refuse_if-ok false e u h = refl

select-none :
    (p : String → Bool) (xs : List String)
    → select (λ k. not (p k)) xs ≡ []
    → All (λ k. p k ≡ true) xs
unfolding select
select-none p [] h = tt
select-none p (x ∷ xs) h = (ground arith, select-none p xs (ground arith))

any-none :
    (p : String → Bool) (xs : List String)
    → any (λ k. not (p k)) xs ≡ false
    → All (λ k. p k ≡ true) xs
any-none p [] h = tt
any-none p (x ∷ xs) h = (ground arith, any-none p xs (ground arith))

non_empty_str-ok :
    (msg : String) (v : Option Value) (s : String)
    → non_empty_str msg v ≡ ok s
    → (v ≡ some (str s)) × (str_eq s "" ≡ false)
unfolding non_empty_str
non_empty_str-ok msg none s h = cc
non_empty_str-ok msg (some (str t)) s h = elim (Bool-cases (str_eq t "")) [
  | inl e ↦ ground (arith, e, h)
  | inr e ↦ ground (arith, e, h)
]
non_empty_str-ok msg (some null) s h = cc
non_empty_str-ok msg (some (bool b)) s h = cc
non_empty_str-ok msg (some (int n)) s h = cc
non_empty_str-ok msg (some (float t)) s h = cc
non_empty_str-ok msg (some (arr vs)) s h = cc
non_empty_str-ok msg (some (obj d)) s h = cc

reject_extra_keys-ok :
    (d : Fields) (allowed : List String) (u : Unit {0})
    → reject_extra_keys d allowed ≡ ok u
    → All (λ k. contains allowed k ≡ true) (keys d)
unfolding reject_extra_keys
reject_extra_keys-ok d allowed u h = select-none (contains allowed) (keys d) (ground arith)

options_object-ok : (v : Option Value) (d : Fields) → options_object v ≡ ok d → v ≡ some (obj d)
unfolding options_object
options_object-ok none d h = cc
options_object-ok (some (obj e)) d h = cc
options_object-ok (some null) d h = cc
options_object-ok (some (bool b)) d h = cc
options_object-ok (some (int n)) d h = cc
options_object-ok (some (float t)) d h = cc
options_object-ok (some (arr vs)) d h = cc
options_object-ok (some (str s)) d h = cc

known_blocks-ok :
    (d : Fields) (u : Unit {0})
    → known_blocks d ≡ ok u
    → All (λ k. is_known_backend k ≡ true) (keys d)
unfolding known_blocks
known_blocks-ok d u h = any-none is_known_backend (keys d) (refuse_if-ok _ _ u h)

-- What the parser promises of a message `m` that it makes of the object `d`.
pub record IsOpen (d : Fields) (m : OpenMessage) : Type 0 where
  pub known_keys : All (λ k. contains open_top_level k ≡ true) (keys d)
  pub session : get "session_id" d ≡ some (str m.session_id)
  pub named : str_eq m.session_id "" ≡ false
  pub backend : get "backend" d ≡ some (str m.backend)
  pub known : is_known_backend m.backend ≡ true
  pub options : Fields
  pub given : get "options" d ≡ some (obj options)
  pub blocks : All (λ k. is_known_backend k ≡ true) (keys options)
  pub own : backend_block (get m.backend options) ≡ ok m.options

-- An open message that passes the parser names a session that is not empty and a known backend,
-- has no other keys than the known ones, and has options with blocks of known backends only, its own
-- block an object, or empty where it is missing.
pub parse_open-IsOpen : (d : Fields) (m : OpenMessage) → parse_open d ≡ ok m → IsOpen d m
unfolding parse_open
parse_open-IsOpen d m h =
    let (u, e1, h1) = ok->>= (reject_extra_keys d open_top_level) _ m h in
    let (sid, e2, h2) =
      ok->>= (non_empty_str "open requires non-empty 'session_id'" (get "session_id" d)) _ m h1 in
    let (b, e3, h3) =
      ok->>= (non_empty_str "open requires non-empty 'backend'" (get "backend" d)) _ m h2 in
    let (u4, e4, h4) =
      ok->>= (refuse_if (not (is_known_backend b)) (unknown_backend_error b)) _ m h3 in
    let (o, e5, h5) = ok->>= (options_object (get "options" d)) _ m h4 in
    let (block, e6, h6) = ok->>= (backend_block (get b o)) _ m h5 in
    let (u7, e7, h7) = ok->>= (known_blocks o) _ m h6 in
    let (id, e8, h8) = ok->>= (req_id d) _ m h7 in
    let (seq, e9, h9) = ok->>= (optional_seq (get "last_seen_seq" d)) _ m h8 in
    let (alias, e10, h10) =
      ok->>= (optional_str "'alias' must be a string" (get "alias" d)) _ m h9 in
    let (get_sid, named) = non_empty_str-ok _ _ sid e2 in
    let (get_backend, _) = non_empty_str-ok _ _ b e3 in
    subst (IsOpen d) (ok-injective _ m h10) (record {
      known_keys = reject_extra_keys-ok d open_top_level u e1;
      session = get_sid;
      named = named;
      backend = get_backend;
      known = ground (arith, refuse_if-ok _ _ u4 e4);
      options = o;
      given = options_object-ok _ o e5;
      blocks = known_blocks-ok o u7 e7;
      own = e6;
    })
