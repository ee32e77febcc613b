-- ===== src/Tests/WeaverTests.antt =====
-- The sections of the context weaver at concrete inputs.
use sovalune_core.Common.{ℕ, ◌≤◌, ◌≡◌, refl, [], ◌∷◌, returns, arith}
use sovalune_core.Text.{Text, codes, byte_len}
use sovalune_core.Weaver.{add_section}
use sovalune_core.Weaver.Sections.{add_section_within}

likes :
    add_section [] (codes "<facts>") (codes "likes Python" ∷ []) 100
    ≡ returns (codes "\n<facts>\n- likes Python\n</facts>\n", 3)
unfolding add_section sovalune_core.Weaver.add_contents byte_len sovalune_core.Weaver.tag_name
    sovalune_core.Text.Pieces.trim_start
likes = refl

add_section_within_example :
    (c : Text) × (n : ℕ) × (add_section [] (codes "<facts>") (codes "likes Python" ∷ []) 100
      ≡ returns (c, n))
    × (n ≤ 100)
add_section_within_example =
    add_section_within [] (codes "<facts>") (codes "likes Python" ∷ []) 100 (omega arith)
      ((omega arith, unfold byte_len in omega arith), tt)
