-- ===== src/Selection/ReleasePointer/Examples.antt =====
-- The compare-and-swap at concrete stores.
use recursive_self_improveme.Common.{◌≡◌, refl, none, some, List, [], ◌∷◌, map, length, err}
use recursive_self_improveme.Security.{require_release_swap_authority}
use recursive_self_improveme.Security.Fixtures.{controller_identity, evaluator_identity}
use recursive_self_improveme.Selection.ReleasePointer.{
  in_memory_audit_log, compare_and_swap, cas_conflict,
}
use recursive_self_improveme.Selection.ReleasePointer.Authority.{Effects, compare_and_swap-Effects}
use recursive_self_improveme.Selection.ReleasePointer.Ledger.{
  Store, IsAccounted, no_release, ExpectedResult, compare_and_swap_lem, swapped_store, attempts,
  attempts-ledger, second_swap_conflicts, Attempt,
}

abbrev empty_store : Store
empty_store = record { pointer = no_release; log = [] }

abbrev race : List Attempt
race =
    (controller_identity, none, "a")
    ∷ (controller_identity, none, "b")
    ∷ (evaluator_identity, some "a", "c")
    ∷ (controller_identity, some "a", "d")
    ∷ []

outcomes_of_race :
    map (λ e. e.outcome) (attempts race empty_store).log
    ≡ "allowed" ∷ "conflict" ∷ "denied" ∷ "allowed" ∷ []
unfolding attempts compare_and_swap require_release_swap_authority in_memory_audit_log
outcomes_of_race = refl

pointer_after_race :
    (attempts race empty_store).pointer ≡ record { current_digest = some "d"; version = 2 }
unfolding attempts compare_and_swap require_release_swap_authority in_memory_audit_log
pointer_after_race = refl

compare_and_swap-Effects_example :
    Effects in_memory_audit_log controller_identity none "a" empty_store
      (compare_and_swap in_memory_audit_log controller_identity none "a" empty_store)
compare_and_swap-Effects_example =
    compare_and_swap-Effects in_memory_audit_log controller_identity none "a" empty_store

compare_and_swap_lem_at_test :
    ExpectedResult evaluator_identity none "a" empty_store
      (compare_and_swap in_memory_audit_log evaluator_identity none "a" empty_store)
compare_and_swap_lem_at_test = compare_and_swap_lem evaluator_identity none "a" empty_store

attempts-ledger_example :
    (length (attempts race empty_store).log ≡ 4)
    × IsAccounted no_release (attempts race empty_store)
attempts-ledger_example = attempts-ledger race

second_swap_conflicts_at_test :
    (let s' = swapped_store controller_identity none "a" empty_store in
      ((compare_and_swap in_memory_audit_log controller_identity none "b" s').0
        ≡ err (cas_conflict none (some "a")))
      × ((compare_and_swap in_memory_audit_log controller_identity none "b" s').1.pointer
          ≡ s'.pointer))
unfolding compare_and_swap require_release_swap_authority in_memory_audit_log
second_swap_conflicts_at_test =
    second_swap_conflicts controller_identity controller_identity none "a" "b" empty_store
      (swapped_store controller_identity none "a" empty_store)
      (swapped_store controller_identity none "a" empty_store).pointer (λ e. cc) refl refl
