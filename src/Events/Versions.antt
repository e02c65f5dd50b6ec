-- ===== src/Events/Versions.antt =====
-- The versions of replaceable events: the table of src/relay-worker.ts refines a register that holds
-- the newest version for each kind and author.
use open_dating.Prelude.{◌≡◌, false, List, [], ◌∷◌, ◌==◌, All}
use open_dating.Events.Model.{Event}
use open_dating.Events.Config.{Config}
use open_dating.Events.Store.{EventDb}
use open_dating.Events.Register.{is_known, IsVersion}

-- Events that can be stored, with ids that are new and different.
abbrev pub AreFresh : List Event → EventDb → Type 0
AreFresh [] db = Unit
AreFresh (e ∷ events) db =
    IsVersion e
    × (is_known e.id db ≡ false)
    × All (λ f. (e.id == f.id) ≡ false) events
    × AreFresh events db
