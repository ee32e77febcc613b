-- ===== src/Text/Slices.antt =====
-- On ASCII texts a character is a byte, and a slice within the text is never refused.
use sovalune_core.Common.{ℕ, zero, suc, ◌≤◌, ◌≡◌, refl, some, [], ◌∷◌, length, arith}
use sovalune_core.Text.{Text, byte_len, slice_to}
use sovalune_core.Text.Ascii.{IsAscii}

pub byte_len-ascii : (t : Text) → IsAscii t → byte_len t ≡ length t
unfolding byte_len
byte_len-ascii [] h = refl
byte_len-ascii (c ∷ t) h = ground (arith, byte_len-ascii t h.1)

pub slice_to-ascii :
    (t : Text) (n : ℕ) → IsAscii t → n ≤ length t → (s : Text) × (slice_to t n ≡ some s)
unfolding slice_to
slice_to-ascii t zero h k = ([], refl)
slice_to-ascii [] (suc n) h k = absurd (omega arith)
slice_to-ascii (c ∷ t) (suc n) h k =
    let (s, e) = slice_to-ascii t n h.1 (omega arith) in (c ∷ s, ground arith)
