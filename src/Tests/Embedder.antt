-- ===== src/Tests/Embedder.antt =====
-- Two texts with the same words in another order.
use mathlib.Core.List.{Perm, Permᴰ}
use Prim.Native.String.{String}
use eset_incident_ai.Prelude.{ℕ, ◌≡◌, refl, List, [], ◌∷◌, length, str_len, arith}
use eset_incident_ai.Regex.{is_letter, match_at, find_from}
use eset_incident_ai.Rag.Embedder.{tokens, embed_one}
use eset_incident_ai.Rag.Embedder.Order.{weight, embed_one-bag}

-- The text is in lower case already, and a digest is five bytes.
abbrev same : String → String
same s = s

abbrev digest : String → List ℕ
digest s = 0 ∷ 0 ∷ 0 ∷ str_len s ∷ str_len s ∷ []

first_order : tokens same digest is_letter "lock the pc" ≡ "lock" ∷ "the" ∷ "pc" ∷ []
unfolding tokens find_from match_at
first_order = refl

abbrev reordered :
    Perm (tokens same digest is_letter "lock the pc") (tokens same digest is_letter "the lock pc")
unfolding tokens find_from match_at
reordered = ∣ Permᴰ.swap refl refl ∣₁

embed_one-bag_example :
    (embed_one same digest is_letter 4 "lock the pc"
      ≡ embed_one same digest is_letter 4 "the lock pc")
    × (length (embed_one same digest is_letter 4 "lock the pc") ≡ 4)
    × (weight (embed_one same digest is_letter 4 "lock the pc")
        ≡ length (tokens same digest is_letter "lock the pc"))
embed_one-bag_example =
    embed_one-bag same digest is_letter 4 "lock the pc" "the lock pc" (omega arith) reordered
