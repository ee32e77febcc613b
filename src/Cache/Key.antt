-- ===== src/Cache/Key.antt =====
-- crates/sovalune-model-runtime/src/cache.rs: `model_cache_key`. The hasher is a parameter: `finish`
-- is the `u64` that it makes of what is written to it, in order.
use sovalune_core.Common.{
  ℕ, zero, suc, ◌+◌, ◌-◌, ◌/◌, ◌%◌, Option, none, some, List, [], ◌∷◌, ◌++◌, ltb, if◌then◌else◌,
}
use sovalune_core.Text.{Text, codes}
use sovalune_core.Json.{Json, as_str, at}

-- what is written to the hasher: a text, the bits of an `f32`, a `u32`
pub data Hashed (F : Type 0) : Type 0 where
  text : Text → Hashed F
  bits : F → Hashed F
  word : ℕ → Hashed F

-- a hexadecimal digit
hex_digit : ℕ → ℕ
hex_digit d = if ltb d 10 then b'0' + d else b'a' + (d - 10)

-- `{:0kx}` of a number below 16^k
unfoldable pub print_hex : ℕ → ℕ → Text
unfolding hex_digit
print_hex zero n = []
print_hex (suc k) n = print_hex k (n / 16) ++ hex_digit (n % 16) ∷ []

module _ {F : Type 0} where
  unfoldable pub hash_text : Option Text → List (Hashed F)
  hash_text none = []
  hash_text (some t) = text t ∷ []

  -- the loop over the messages
  unfoldable pub hash_messages : List Json → List (Hashed F)
  unfolding hash_text
  hash_messages [] = []
  hash_messages (msg ∷ rest) =
      hash_text (as_str (at (codes "content") msg))
      ++ (hash_text (as_str (at (codes "role") msg)) ++ hash_messages rest)

  unfoldable pub model_cache_key : (List (Hashed F) → ℕ) → Text → List Json → F → ℕ → Text
  unfolding hash_messages print_hex
  model_cache_key finish model messages temperature max_tokens =
      codes "model:"
      ++ print_hex 16
          (finish (text model ∷ bits temperature ∷ word max_tokens ∷ hash_messages messages))
