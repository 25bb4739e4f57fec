-- ===== src/Security/Detectors/Found.antt =====
-- The findings are in order, and an injection is found wherever it stands.
use Prim.Native.String.{String}
use eset_incident_ai.Prelude.{ℕ, ◌≡◌, true, Option, [], ◌∷◌, concat}
use eset_incident_ai.Regex.{CharClass, Regex, nothing, search_from}
use eset_incident_ai.Sorting.{rising}
use eset_incident_ai.Sorting.Order.{InOrder, has_key, filter, sorted-InOrder, sorted-filter}
use eset_incident_ai.Security.Detectors.{all_findings, find, injection_patterns}

-- The findings are in the order of their starts, and for each start they are those of the patterns, in
-- the order of the patterns.
pub find-InOrder :
    (is_word : CharClass) (text : String)
    → InOrder rising (λ f. f.start) (find is_word text)
      × ((start : ℕ)
          → filter (has_key rising (λ f. f.start) start) (find is_word text)
            ≡ filter (has_key rising (λ f. f.start) start) (all_findings is_word text))
unfolding find
find-InOrder is_word text = (
  sorted-InOrder rising (λ f. f.start) (all_findings is_word text),
  λ start. sorted-filter rising (λ f. f.start) start (all_findings is_word text),
)

module _ (is_word : CharClass) where
  abbrev Hit : Regex → String → Type 0
  Hit r phrase =
      (after : String) (b : Option ℕ) → search_from is_word r b (concat phrase after) ≡ true

  -- The first two patterns.
  abbrev ignore_re : Regex
  ignore_re = elim injection_patterns [ [] ↦ nothing | r ∷ rs ↦ r ]

  abbrev print_re : Regex
  print_re = elim injection_patterns [
    | [] ↦ nothing
    | r ∷ rs ↦ elim rs [ [] ↦ nothing | s ∷ ss ↦ s ]
  ]
