-- ===== src/Memory/Tiers.antt =====
-- crates/sovalune-storage-client/src/repositories/memory.rs: the names of the tiers.
use sovalune_core.Common.{◌≡◌, ◌↔◌, refl, ok, arith}
use sovalune_core.Text.{Text, codes, text_eq}
use sovalune_core.Text.Equality.{text_eq-eq}
use sovalune_core.Memory.{MemoryTier, raw, consolidated, verified, tier_name, from_str}

from_str_name : (t : MemoryTier) → from_str (tier_name t) ≡ ok t
unfolding from_str tier_name text_eq
from_str_name raw = refl
from_str_name consolidated = refl
from_str_name verified = refl

name_from_str : (s : Text) (t : MemoryTier) → from_str s ≡ ok t → s ≡ tier_name t
unfolding from_str tier_name
name_from_str s t h = ground (
  arith,
  text_eq-eq s (codes "raw"),
  text_eq-eq s (codes "consolidated"),
  text_eq-eq s (codes "verified"),
)

-- A text is read as a tier exactly where it is the name that the tier prints.
pub from_str-tier_name : (s : Text) (t : MemoryTier) → (from_str s ≡ ok t) ↔ (s ≡ tier_name t)
from_str-tier_name s t = (name_from_str s t, λ h. rw h (from_str_name t))
