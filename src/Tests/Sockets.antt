-- ===== src/Tests/Sockets.antt =====
-- The gateway with a driver and a customer on one order of the shop of the tests.
use marketplace_invite_only.Common.{◌≡◌, false, none, some, List, [], ◌∷◌}
use marketplace_invite_only.Gateway.Events.{Field, MessageType, Raw}
use marketplace_invite_only.Gateway.Registry.{DeliveryRole, has, subscribers_of}
use marketplace_invite_only.Gateway.Handler.{Happening, step, run, quiet}
use marketplace_invite_only.Gateway.Sets.{in_bucket}
use marketplace_invite_only.Gateway.Consistency.{IsConsistent}
use marketplace_invite_only.Gateway.Replies.{AllDue}
use marketplace_invite_only.Gateway.Runs.{run-IsConsistent, run-disconnected}
use marketplace_invite_only.Gateway.Recipients.{run-AllDue}
use marketplace_invite_only.Tests.{shop}
use marketplace_invite_only.Tests.Accounts.{guard}

abbrev follow : Raw
follow = Raw.message (record {
  mtype = MessageType.subscribe;
  conversation_id = Field.missing;
  delivery_order_id = Field.uuid 500;
  state = none;
})

-- the buyer comes, follows the order, and a location is posted
abbrev visit : List Happening
visit =
    Happening.handshake 10 (some 5) 700 shop
    ∷ Happening.received 10 follow shop
    ∷ Happening.location_posted 500 42
    ∷ []

run-IsConsistent_example : IsConsistent (run guard visit quiet).registry
run-IsConsistent_example = run-IsConsistent guard visit

run-disconnected_example :
    let r = (step guard (Happening.disconnected 10) (run guard visit quiet)).registry in
    (has 10 (subscribers_of 500 r.subs) ≡ false)
    × ((in_bucket DeliveryRole.internal 10 500 r.delivery_subs ≡ false)
        × (in_bucket DeliveryRole.customer 10 500 r.delivery_subs ≡ false))
run-disconnected_example = run-disconnected guard visit 10 500

run-AllDue_example : AllDue (run guard visit quiet).sent
run-AllDue_example = run-AllDue guard visit
