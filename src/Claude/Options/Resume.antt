-- ===== src/Claude/Options/Resume.antt =====
-- blemees_agent/backends/claude.py: the argument vector of a child that resumes its session.
use blemees_daemon.Prelude.{
  ◌≡◌, refl, sym, ap, ◌∙◌, true, false, some, List, [], ◌∷◌, ◌++◌, String, str_eq, arith,
}
use blemees_daemon.Json.{is_in, Fields}
use blemees_daemon.Claude.Options.{
  Printer, rewrite_session, argv_to_resume, build_argv, option_argv, fixed_argv,
}

-- A vector without `--session-id` is not changed.
rewrite_session-none :
    (xs : List String) → is_in "--session-id" xs ≡ false → rewrite_session xs ≡ (xs, false)
unfolding rewrite_session is_in
rewrite_session-none [] h = refl
rewrite_session-none (x ∷ []) h = refl
rewrite_session-none (x ∷ y ∷ rest) h = ground (arith, rewrite_session-none (y ∷ rest))

module _ (p : Printer) (chars : String → List String) (bin sid : String) where
  -- A vector of a new session with the flags `rest`, and the one that resumes it.
  resumed_argv :
      (rest : List String)
      → str_eq bin "--session-id" ≡ false
      → is_in "--session-id" rest ≡ false
      → argv_to_resume (fixed_argv p chars bin sid false ++ rest) sid
        ≡ fixed_argv p chars bin sid true ++ rest
  unfolding argv_to_resume fixed_argv rewrite_session is_in
  resumed_argv rest hb hr = rw (hb, rewrite_session-none ("stream-json" ∷ rest) hr) refl

  built_argv :
      (options : Fields) (flags argv : List String)
      → option_argv p chars options ≡ some flags
      → build_argv p chars bin sid options false ≡ some argv
      → argv ≡ fixed_argv p chars bin sid false ++ flags
  unfolding build_argv
  built_argv options flags argv ho hb = cc

  -- Rewriting the vector of a new child gives the vector that `build_argv` gives for a child that
  -- resumes. Conditions: the options give flags, none of them is the text `--session-id`, nor is the
  -- program's name.
  pub argv_to_resume-build_argv :
      (options : Fields) (flags argv : List String)
      → str_eq bin "--session-id" ≡ false
      → option_argv p chars options ≡ some flags
      → is_in "--session-id" flags ≡ false
      → build_argv p chars bin sid options false ≡ some argv
      → build_argv p chars bin sid options true ≡ some (argv_to_resume argv sid)
  unfolding build_argv
  argv_to_resume-build_argv options flags argv hn ho hf hb = rw (ho) (
      ap (λ xs. some xs)
        (sym (
          ap (λ xs. argv_to_resume xs sid) (built_argv options flags argv ho hb)
          ∙ resumed_argv flags hn hf)))
