-- ===== src/Text/Ascii.antt =====
-- Lower case of ASCII texts, on which `str::to_lowercase` is fixed; elsewhere it follows the tables of
-- Unicode, which are a parameter of the functions that use it.
use sovalune_core.Common.{ℕ, ◌+◌, ◌<◌, ◌≡◌, ◌&&◌, map, leb, if◌then◌else◌, All}
use sovalune_core.Text.{Text}

unfoldable pub ascii_lower : ℕ → ℕ
ascii_lower c = if leb b'A' c && leb c b'Z' then c + 32 else c

abbrev pub IsAscii : Text → Type 0
IsAscii = All (λ c. c < 128)

-- What is documented of `to_lowercase` on ASCII texts.
pub record LowercaseLaws (to_lowercase : Text → Text) : Type 0 where
  pub ascii : (t : Text) → IsAscii t → to_lowercase t ≡ map ascii_lower t
