-- ===== src/Main/Examples.antt =====
-- Three modules that register and unregister.
use mathlib.Core.List.{foldl}
use whisper2peer.Base.{ℕ, ◌≡◌, refl, false, List, [], ◌∷◌, bytes_discrete, if◌then◌else◌}
use whisper2peer.Messages.{Module, GossipNotification, FromVert}
use whisper2peer.Connections.{swap_remove}
use whisper2peer.Main.{
  load, save, is_registered, add_channel_to_type, position, remove_channel,
  handle_module_unregister, handle_type_registration, handle_notification, on_from_vert,
}
use whisper2peer.Main.Registrations.{count, in_force, after, notified, handle_notification-in_force}

program : Unit {0}
unfolding bytes_discrete swap_remove load save is_registered add_channel_to_type position
    remove_channel handle_module_unregister handle_type_registration handle_notification
    on_from_vert
program = tt

abbrev module_of : ℕ → Module
module_of n = record { id = n ∷ []; chan = n }

abbrev registers : ℕ → ℕ → FromVert
registers n t = FromVert.register (record { reserved = 0; data_type = t }) (module_of n)

-- The second registration of the first module for type 5 is refused.
abbrev history : List FromVert
history =
    registers 1 5
    ∷ registers 2 5
    ∷ registers 1 5
    ∷ registers 3 5
    ∷ registers 1 6
    ∷ FromVert.unregister (1 ∷ [])
    ∷ []

abbrev note : GossipNotification
note = record { message_id = 7; data_type = 5; payload = [] }

left_of_five : load (after [] history) 5 ≡ module_of 3 ∷ module_of 2 ∷ []
unfolding program
left_of_five = refl

none_of_six : load (after [] history) 6 ≡ []
unfolding program
none_of_six = refl

handle_notification-in_force_example :
    count (1 ∷ []) (notified (handle_notification (after [] history) note))
    ≡ (if foldl (in_force 5 (1 ∷ [])) false history then 1 else 0)
handle_notification-in_force_example = handle_notification-in_force history note (1 ∷ [])
