-- ===== src/Utils/Split.antt =====
-- src/utils/split.h: a text cut at each separator.
pub mod Laws
use nametag.Common.{ℕ, List, [], ◌∷◌, ◌++◌, ◌==◌, if◌then◌else◌}
use nametag.Common.Bytes.{Bytes}

-- The loop over the separators that are still to be found, of which each ends a token; `token` is
-- the text from `index` up to the first byte of the rest.
unfoldable pub split_from : ℕ → Bytes → Bytes → List Bytes
split_from sep token [] = token ∷ []
split_from sep token (c ∷ text) =
    if c == sep then token ∷ split_from sep [] text else split_from sep (token ++ c ∷ []) text

unfoldable pub split : ℕ → Bytes → List Bytes
unfolding split_from
split sep [] = []
split sep (c ∷ text) = split_from sep [] (c ∷ text)
