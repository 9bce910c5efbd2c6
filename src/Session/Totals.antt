-- ===== src/Session/Totals.antt =====
-- The accumulator adds up the counters of the turns.
use blemees_daemon.Prelude.{
  ℕ, ◌≡◌, refl, ap, ◌∙◌, Bool, true, false, some, List, [], ◌∷◌, String, str_eq, eq_iff, arith, any,
  if◌then◌else◌, inl, inr, Option-cases,
}
use blemees_daemon.Prelude.Int.{ℤ, pos, ◌+ℤ◌}
use blemees_daemon.Json.{Fields, int, insert, get_obj, get_str}
use blemees_daemon.Json.Laws.{get-insert}
use blemees_daemon.Session.Counters.{
  Usage, count, counters, add_counter, add_counters, update_usage, has_type,
}

+ℤ_zero : (n : ℤ) → n +ℤ pos 0 ≡ n
unfolding ◌+ℤ◌
+ℤ_zero n = ground arith

abbrev pub is_counter : String → List String → Bool
is_counter j ks = any (λ k. str_eq k j) ks

abbrev AllDifferent : List String → Type 0
AllDifferent [] = Unit
AllDifferent (k ∷ ks) = (is_counter k ks ≡ false) × AllDifferent ks

count-insert :
    (k j : String) (n : ℤ) (d : Fields)
    → count j (insert k (int n) d) ≡ (if str_eq k j then n else count j d)
count-insert k j n d = ground (arith, get-insert k j (int n) d)

count-add_counter :
    (usage total : Fields) (k j : String)
    → count j (add_counter usage total k)
      ≡ (if str_eq k j then count j total +ℤ count j usage else count j total)
unfolding add_counter
count-add_counter usage total k j = ground (
  arith,
  eq_iff k j,
  count-insert k j (count k total +ℤ count k usage) total,
  +ℤ_zero (count j total),
)

count-add_counters :
    (usage : Fields) (ks : List String) (total : Fields) (j : String)
    → AllDifferent ks
    → count j (add_counters usage ks total)
      ≡ (if is_counter j ks then count j total +ℤ count j usage else count j total)
unfolding add_counters
count-add_counters usage [] total j u = refl
count-add_counters usage (k ∷ ks) total j u =
    count-add_counters usage ks (add_counter usage total k) j u.1
    ∙ ground (arith, count-add_counter usage total k j, eq_iff k j, u.0)

init_or_result :
    (t : String) → str_eq t "agent.result" ≡ true → str_eq t "agent.system_init" ≡ false
init_or_result t e = ap (λ s. str_eq s "agent.system_init") ((eq_iff t "agent.result").0 e) ∙ refl

not_init : (f : Fields) → has_type "agent.result" f ≡ true → has_type "agent.system_init" f ≡ false
not_init f e = elim (Option-cases (get_str "type" f)) [
  | inl h ↦ ground arith
  | inr (t, h) ↦ ground (arith, init_or_result t)
]

-- A result frame with usage counts one turn, keeps the usage as the last one, and adds each of the
-- five counters to its total; no other total changes.
pub update_usage-count :
    (writable : Bool) (now : ℕ) (sid : String) (f usage : Fields) (u : Usage) (j : String)
    → has_type "agent.result" f ≡ true
    → get_obj "usage" f ≡ some usage
    → ((update_usage writable now sid f u).turns ≡ u.turns +ℤ pos 1)
      × ((update_usage writable now sid f u).last_turn_usage ≡ usage)
      × (count j (update_usage writable now sid f u).cumulative_usage ≡ (
          if is_counter j counters
          then count j u.cumulative_usage +ℤ count j usage
          else count j u.cumulative_usage))
unfolding update_usage
update_usage-count writable now sid f usage u j result has =
    let total : (update_usage writable now sid f u).cumulative_usage
        ≡ add_counters usage counters u.cumulative_usage =
      ground (arith, not_init f result) in
    (
      ground (arith, not_init f result),
      ground (arith, not_init f result),
      ap (count j) total
          ∙ count-add_counters usage counters u.cumulative_usage j
              (refl, (refl, (refl, (refl, (refl, tt))))),
    )
