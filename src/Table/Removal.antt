-- ===== src/Table/Removal.antt =====
-- What a removal takes out of the table, and the files it leaves.
use blemees_daemon.Prelude.{
  suc, ◌≡◌, refl, subst, inl, inr, Bool, Option, none, some, List, [], ◌∷◌, String, str_eq, eq_iff,
  arith, length, if◌then◌else◌, Bool-cases, Option-cases,
}
use blemees_daemon.Session.{Session}
use blemees_daemon.Table.{Table, Files, find, discard, remove, leave_files}
use blemees_daemon.Table.Lookup.{find-put, find-discard, Distinct}
use blemees_daemon.Table.Reaping.{find-Keyed, find-remove}
use blemees_daemon.Table.Capacity.{IsSound, remove-IsSound}

discard_absent : (k : String) (d : List (String × Session)) → find k d ≡ none → discard k d ≡ d
unfolding find discard
discard_absent k [] h = refl
discard_absent k ((i, b) ∷ d) h = ground (arith, discard_absent k d)

length-discard_old :
    (k : String) (a : Session) (d : List (String × Session))
    → Distinct d
    → find k d ≡ some a
    → length d ≡ suc (length (discard k d))
unfolding find discard
length-discard_old k a [] u h = cc
length-discard_old k a ((i, b) ∷ d) u h = elim (Bool-cases (str_eq i k)) [
  | inl e ↦
      let same : i ≡ k = (eq_iff i k).0 e in
      rw (e, discard_absent k d (subst (λ x. find x d ≡ none) same u.0)) refl
  | inr e ↦ ground (arith, length-discard_old k a d u.1)
]

-- The files that a removed session leaves: none, or what it logged; those of a session without a log
-- are as they were.
abbrev pub files_left : Bool → Session → Option Files → Option Files
files_left delete s before = elim s.log [
  | none ↦ before
  | some file ↦ if delete then none else some (record { log = file; sidecar = s.usage.sidecar })
]

find-leave_files :
    (j : String) (delete : Bool) (s : Session) (disk : List (String × Files))
    → find j (leave_files delete s disk)
      ≡ (if str_eq s.session_id j then files_left delete s (find j disk) else find j disk)
unfolding leave_files
find-leave_files j delete s disk = elim (Option-cases s.log) [
  | inl none_open ↦ rw (none_open) (ground arith)
  | inr (file, logged) ↦
      let kept : Files = record { log = file; sidecar = s.usage.sidecar } in
      rw (logged)
        (ground (arith, find-discard s.session_id j disk, find-put s.session_id j kept disk))
]

-- The session of an id is out of the table, and nothing else is.
pub record Removes (sid : String) (delete : Bool) (s : Session) (t t' : Table) : Type 0 where
  pub sound : IsSound t'
  pub gone : (j : String) → find j t'.sessions ≡ (if str_eq sid j then none else find j t.sessions)
  pub count : length t.sessions ≡ suc (length t'.sessions)
  pub files :
      (j : String)
      → find j t'.disk
        ≡ (if str_eq sid j then files_left delete s (find j t.disk) else find j t.disk)

abbrev HasLeft : Bool → Session → List (String × Files) → String → Table → String → Type 0
HasLeft delete s disk j t' sid =
    find j t'.disk ≡ (if str_eq sid j then files_left delete s (find j disk) else find j disk)

-- A session of a sound table that is removed is not found any more, while every other session is as it
-- was; the table has one session less, and stays sound. Its log files are gone where they are to be
-- deleted, and else hold what it logged; no other file changes. The backend to close is its own.
pub remove-Removes :
    (sid : String) (delete : Bool) (t : Table) (s : Session)
    → IsSound t
    → find sid t.sessions ≡ some s
    → Removes sid delete s t (remove sid delete t).0 × ((remove sid delete t).1 ≡ s.backend)
unfolding remove leave_files
remove-Removes sid delete t s h e = (
  record {
    sound = remove-IsSound sid delete t h;
    gone = λ j. find-remove sid j delete t;
    count = rw (e, remove) (length-discard_old sid s t.sessions h.distinct e);
    files = λ j.
        subst (HasLeft delete s t.disk j (remove sid delete t).0)
          (find-Keyed sid t.sessions s h.keyed e)
          (rw (e, remove) (find-leave_files j delete s t.disk));
  },
  rw (e, remove) refl,
)
