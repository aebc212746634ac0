-- ===== src/Mcp/Client/Tests.antt =====
-- Two calls of which the second is answered before the transport ends.
use sap_automate.Base.{◌≡◌, refl, true, none, List, [], ◌∷◌, nat_key, string_key, pair_key}
use sap_automate.Base.Int.{pos}
use sap_automate.Base.Dict.{get, insert, remove}
use sap_automate.Mcp.JsonRpc.{RequestId}
use sap_automate.Mcp.Client.{ids_of}
use sap_automate.Mcp.Client.Calls.{
  Event, calls, receives, closes, happen_all, initial, IsAccounted, happen_all-IsAccounted,
}

abbrev run : List Event
run =
    calls "ping" none true
    ∷ calls "tools/list" none true
    ∷ receives (RequestId.number (pos 2))
    ∷ receives (RequestId.number (pos 2))
    ∷ closes
    ∷ []

both_are_woken : (happen_all initial run).woken ≡ 1 ∷ 2 ∷ []
unfolding happen_all initial insert get remove
both_are_woken = refl

-- The table is cleared before the call, and nothing reads any more.
late_call_stays :
    ids_of (happen_all initial (closes ∷ calls "ping" none true ∷ [])).client.pending ≡ 1 ∷ []
unfolding happen_all initial insert
late_call_stays = refl

happen_all-IsAccounted_example : IsAccounted (happen_all initial run)
happen_all-IsAccounted_example = happen_all-IsAccounted run
