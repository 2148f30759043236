-- ===== src/World/Examples.antt =====
-- Entities at concrete values: tests, and the theorem where its hypotheses hold.
use allonet.Common.{ℕ, ◌≡◌, refl, List, [], ◌∷◌, Option, none, some, String, true, inl, inr}
use allonet.Common.Outcome.{ok}
use allonet.World.{Entity, cascade, reparent, remove_entity, remove_entity_id}
use allonet.World.Members.{Unique}
use allonet.World.Cascade.{Cleared, remove_entity-Cleared}

abbrev entity : ℕ → String → Option String → Entity
entity a i p = record { address = a; id = i; parent = p }

-- A table with a lamp on it, and a bulb in the lamp; and a chair.
abbrev room : List Entity
room =
    entity 4 "bulb" (some "lamp")
    ∷ entity 3 "lamp" (some "table")
    ∷ entity 2 "chair" none
    ∷ entity 1 "table" none
    ∷ []

cascades : remove_entity 4 cascade (entity 1 "table" none) room ≡ ok (entity 2 "chair" none ∷ [])
unfolding remove_entity
cascades = refl

reparents :
    remove_entity_id 1 reparent (some "lamp") room
    ≡ ok (entity 4 "bulb" none ∷ entity 2 "chair" none ∷ entity 1 "table" none ∷ [], true)
unfolding remove_entity_id
reparents = refl

room-Unique : Unique room
room-Unique = (
  ((refl, refl), ((refl, refl), ((refl, refl), tt))),
  (((refl, refl), ((refl, refl), tt)), (((refl, refl), tt), (tt, tt))),
)

remove_entity-Cleared_example :
    (es' : List Entity) × (remove_entity 4 cascade (entity 1 "table" none) room ≡ ok es')
    × Cleared (entity 1 "table" none ∷ []) room es'
remove_entity-Cleared_example =
    remove_entity-Cleared (entity 1 "table" none) room room-Unique (inr (inr (inr (inl refl))))
