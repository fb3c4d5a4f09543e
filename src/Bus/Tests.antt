-- ===== src/Bus/Tests.antt =====
-- internal/ems/bus/bus.go: runs of the bus, and its theorem at a concrete input.
use lte_element_manager.Prelude.{ℕ, ◌≡◌, some, List, [], ◌∷◌}
use lte_element_manager.Prelude.Int.{pos}
use lte_element_manager.Bus.{Bus, publish}
use lte_element_manager.Bus.Delivery.{Publishes}
use lte_element_manager.Bus.Steps.{
  Act, published, subscribing, cancelled, read, after_acts, publish_reaches_subscribers,
}

-- Two subscribers, of which the second goes away.
abbrev acts : List (Act ℕ)
acts =
    cancelled 1 ∷ read 0 ∷ published 6 ∷ published 5 ∷ subscribing ∷ published 4 ∷ subscribing ∷ []

publish_reaches_subscribers_example :
    (b : Bus ℕ) × (after_acts (pos 2) acts ≡ some b) × Publishes 7 b (publish 7 b)
publish_reaches_subscribers_example = publish_reaches_subscribers (pos 2) acts 7
