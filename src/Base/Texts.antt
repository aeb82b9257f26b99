-- ===== src/Base/Texts.antt =====
-- The methods of `str` that the code uses and that need no Unicode tables.
use mathlib.Core.List.{reverse}
use fastdjango.Base.Tests.{leb, if◌then◌else◌}
use fastdjango.Base.Eq.{Text, ◌==◌, nat_eq, text_eq}
use Prim.Native.Nat.{ℕ}
use mathlib.Core.Bool.{Bool, true, false, ◌&&◌, ◌||◌}
use mathlib.Core.List.{List, [], ◌∷◌}

-- `str.isspace` of one character: the white space that `str.strip()` removes.
unfoldable pub is_space : ℕ → Bool
is_space c =
    leb 9 c && leb c 13
    || leb 28 c && leb c 32
    || c == 133
    || c == 160
    || c == 5760
    || leb 8192 c && leb c 8202
    || c == 8232
    || c == 8233
    || c == 8239
    || c == 8287
    || c == 12288

unfoldable pub lstrip : Text → Text
unfolding is_space
lstrip [] = []
lstrip (c ∷ s) = let rest = lstrip s in if is_space c then rest else c ∷ s

-- `str.strip()`
unfoldable pub strip : Text → Text
unfolding lstrip
strip s = reverse (lstrip (reverse (lstrip s)))

unfoldable pub starts_with : Text → Text → Bool
starts_with s [] = true
starts_with [] (c ∷ p) = false
starts_with (d ∷ s) (c ∷ p) = d == c && starts_with s p

-- `needle in s`
unfoldable pub contains_text : Text → Text → Bool
unfolding starts_with
contains_text needle [] = starts_with [] needle
contains_text needle (c ∷ s) = starts_with (c ∷ s) needle || contains_text needle s

-- `s.partition(sep)` for a separator of one character: what stands before its first occurrence, whether
-- it occurs, and what stands after.
pub record Parts : Type 0 where
  pub before : Text
  pub found : Bool
  pub after : Text

unfoldable pub partition : ℕ → Text → Parts
partition sep [] = record { before = []; found = false; after = [] }
partition sep (c ∷ s) =
    let rest = partition sep s in
    if c == sep
    then record { before = []; found = true; after = s }
    else record { before = c ∷ rest.before; found = rest.found; after = rest.after }

-- `s in {…}`, `s in (…)`
unfoldable pub is_in : Text → List Text → Bool
is_in s [] = false
is_in s (t ∷ ts) = s == t || is_in s ts
