-- ===== src/Text/Split.antt =====
-- `str::split('/')` and `Iterator::nth`.
use ballista.Prelude.{ℕ, List, [], ◌∷◌, ◌++◌, ◌==◌, if◌then◌else◌, ◌≡◌, ◌≢◌, refl, arith, All}
use ballista.Text.{Text, codes}

abbrev pub NoSlash : Text → Type 0
NoSlash = All (λ c. c ≢ 47)

-- A byte put before the first piece.
abbrev pub onto_first : ℕ → List Text → List Text
onto_first c [] = (c ∷ []) ∷ []
onto_first c (piece ∷ rest) = (c ∷ piece) ∷ rest

unfoldable pub split : Text → List Text
split [] = [] ∷ []
split (c ∷ s) = let rest = split s in if c == b'/' then [] ∷ rest else onto_first c rest

split_runs : split (codes "/a/bc/") ≡ [] ∷ codes "a" ∷ codes "bc" ∷ [] ∷ []
unfolding split
split_runs = refl

pub split-slash : (s : Text) → split (b'/' ∷ s) ≡ [] ∷ split s
unfolding split
split-slash s = refl

-- A piece without a slash is cut off whole.
pub split-piece : (piece s : Text) → NoSlash piece → split (piece ++ b'/' ∷ s) ≡ piece ∷ split s
unfolding split
split-piece [] s h = refl
split-piece (c ∷ piece) s h = ground (arith, split-piece piece s h.1, h.0)

pub split-last : (piece : Text) → NoSlash piece → split piece ≡ piece ∷ []
unfolding split
split-last [] h = refl
split-last (c ∷ piece) h = ground (arith, split-last piece h.1, h.0)
