-- ===== src/Backend/Entries.antt =====
-- A map from keys to values in the order of its keys, which is the order of a scan.
use ballista.Prelude.{
  List, [], ◌∷◌, Bool, true, false, ◌&&◌, ◌||◌, ltb, ◌==◌, if◌then◌else◌, Option, none, some, ◌≡◌,
  refl, arith,
}
use ballista.Text.{Text, Bytes, text_eq, text_eq_iff, starts_with}

abbrev pub Map : Type 0
Map = List (Text × Bytes)

-- The order of byte strings.
unfoldable pub text_lt : Text → Text → Bool
text_lt [] [] = false
text_lt [] (d ∷ t) = true
text_lt (c ∷ s) [] = false
text_lt (c ∷ s) (d ∷ t) = ltb c d || ((c == d) && text_lt s t)

unfoldable pub lookup : Text → Map → Option Bytes
lookup k [] = none
lookup k ((j, v) ∷ m) = if text_eq j k then some v else lookup k m

unfoldable pub insert : Text → Bytes → Map → Map
unfolding text_lt
insert k v [] = (k, v) ∷ []
insert k v ((j, w) ∷ m) =
    let rest = insert k v m in
    if text_eq j k then (k, v) ∷ m else if text_lt k j then (k, v) ∷ (j, w) ∷ m else (j, w) ∷ rest

unfoldable pub with_prefix : Text → Map → Map
with_prefix p [] = []
with_prefix p ((j, v) ∷ m) =
    let rest = with_prefix p m in if starts_with j p then (j, v) ∷ rest else rest

-- `unwrap_or_default`
abbrev pub value_or_empty : Option Bytes → Bytes
value_or_empty none = []
value_or_empty (some v) = v

pub lookup-insert :
    (k j : Text) (v : Bytes) (m : Map)
    → lookup j (insert k v m) ≡ (if text_eq k j then some v else lookup j m)
unfolding lookup insert
lookup-insert k j v [] = refl
lookup-insert k j v ((i, w) ∷ m) =
    ground (arith, text_eq_iff k j, text_eq_iff i k, text_eq_iff i j, lookup-insert k j v m)

-- A write of a key elsewhere is not seen by a scan.
pub with_prefix-insert_other :
    (p k : Text) (v : Bytes) (m : Map)
    → starts_with k p ≡ false
    → with_prefix p (insert k v m) ≡ with_prefix p m
unfolding with_prefix insert
with_prefix-insert_other p k v [] h = ground arith
with_prefix-insert_other p k v ((j, w) ∷ m) h =
    ground (arith, text_eq_iff j k, with_prefix-insert_other p k v m h)

-- A scan shows the map as far as its prefix goes.
pub lookup-with_prefix :
    (p k : Text) (m : Map)
    → lookup k (with_prefix p m) ≡ (if starts_with k p then lookup k m else none)
unfolding lookup with_prefix
lookup-with_prefix p k [] = ground arith
lookup-with_prefix p k ((j, w) ∷ m) = ground (arith, text_eq_iff j k, lookup-with_prefix p k m)
