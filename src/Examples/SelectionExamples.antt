-- ===== src/Examples/SelectionExamples.antt =====
-- Runs of the selection of toolkit/primitives/selection/src.
use iagon_network_explorer_n.Prelude.{
  ℕ, ◌≡◌, ◌≢◌, ◌↔◌, ◌⊎◌, refl, arith, ok, panic, some, none, List, [], ◌∷◌, length, All,
}
use iagon_network_explorer_n.Selection.{find_candidate, select_authorities}
use iagon_network_explorer_n.Selection.Window.{IsSelected, find_candidate_iff}
use iagon_network_explorer_n.Selection.Total.{
  IsCandidate, select_authorities_total, select_authorities_degenerate,
}
use iagon_network_explorer_n.Examples.Fixtures.{counting_rng}

abbrev three : List (ℕ × ℕ)
three = (10, 2) ∷ (20, 3) ∷ (30, 5) ∷ []

find_candidate_iff_example : (find_candidate 0 0 4 three ≡ ok 1) ↔ IsSelected three 4 1
find_candidate_iff_example = find_candidate_iff three 4 1 (omega arith) (omega arith)

select_authorities_total_example :
    (committee : List ℕ) × (select_authorities counting_rng three (1 ∷ 2 ∷ []) 4
      ≡ ok (some committee))
    × (length committee ≡ 4)
    × All (IsCandidate three) committee
select_authorities_total_example =
    select_authorities_total counting_rng three (1 ∷ 2 ∷ []) 4 (omega arith) (omega arith)

abbrev weightless : List (ℕ × ℕ)
weightless = (10, 0) ∷ []

select_authorities_degenerate_example :
    ((weightless ≡ []) × (select_authorities counting_rng weightless [] 1 ≡ ok none))
    ⊎ ((weightless ≢ []) × (select_authorities counting_rng weightless [] 1 ≡ panic))
select_authorities_degenerate_example =
    select_authorities_degenerate counting_rng weightless [] 1 refl (omega arith)

abbrev epoch : ℕ
epoch = 7
