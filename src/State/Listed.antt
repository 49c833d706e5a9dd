-- ===== src/State/Listed.antt =====
-- Tasks among the entries of a scan, in any order: `assign_next_schedulable_task` of
-- rust/scheduler/src/state/mod.rs tries them in the order of a hash map.
use ballista.Prelude.{List, [], ◌∷◌, ◌≡◌, ◌⊎◌, inl, inr, All}
use mathlib.Core.List.{Permᴰ}
use ballista.Text.{Text, Bytes}
use ballista.Error.{ok}
use ballista.Proto.{TaskStatus}
use ballista.State.Codec.{Prost, decode_protobuf}

-- A task is among scanned entries.
abbrev pub IsListed : Prost TaskStatus → TaskStatus → List (Text × Bytes) → Type 0
IsListed codec task [] = ⊥
IsListed codec task ((k, v) ∷ rest) = (decode_protobuf codec v ≡ ok task) ⊎ IsListed codec task rest

-- A task that is listed stays listed in another order.
pub perm-IsListed :
    (codec : Prost TaskStatus) (task : TaskStatus) {xs ys : List (Text × Bytes)}
    → Permᴰ xs ys
    → IsListed codec task xs
    → IsListed codec task ys
perm-IsListed codec task Permᴰ.nil h = h
perm-IsListed codec task (Permᴰ.cons e d) (inl h) = inl (rw (← e) h)
perm-IsListed codec task (Permᴰ.cons e d) (inr h) = inr (perm-IsListed codec task d h)
perm-IsListed codec task (Permᴰ.swap e f) (inl h) = inr (inl (rw (← e) h))
perm-IsListed codec task (Permᴰ.swap e f) (inr (inl h)) = inl (rw (← f) h)
perm-IsListed codec task (Permᴰ.swap e f) (inr (inr h)) = inr (inr h)
perm-IsListed codec task (Permᴰ.trans d d') h =
    perm-IsListed codec task d' (perm-IsListed codec task d h)

-- What holds of all entries holds of them in another order.
pub perm-All :
    (P : Text × Bytes → Type 0) {xs ys : List (Text × Bytes)} → Permᴰ xs ys → All P xs → All P ys
perm-All P Permᴰ.nil h = h
perm-All P (Permᴰ.cons e d) h = (rw (← e) h.0, perm-All P d h.1)
perm-All P (Permᴰ.swap e f) h = (rw (← f) h.1.0, (rw (← e) h.0, h.1.1))
perm-All P (Permᴰ.trans d d') h = perm-All P d' (perm-All P d h)
