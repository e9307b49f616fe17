-- ===== src/Heap/Examples.antt =====
-- The manager's thread starts, a packet comes, is handled, and the thread is stopped.
use node_management.Common.{true, false, List, [], ◌∷◌}
use node_management.Heap.{received, Event, pushes, begins, stops, turns, apply_all, new_store}
use node_management.Heap.Owners.{Returns, no_double_delete}

abbrev one_packet : List Event
one_packet =
    begins received
    ∷ pushes received
    ∷ turns true received
    ∷ stops received
    ∷ turns false received
    ∷ []

no_double_delete_example : Returns (apply_all one_packet new_store)
no_double_delete_example = no_double_delete one_packet
