-- ===== src/Server/HelperUnit/Leak.antt =====
-- `CHelperUnit::InputNotify` when the helper server closes the connection.
use order_sync.Base.{ℕ, ◌<◌, ◌≡◌, refl, List, [], Option, none, some, Bool, false}
use order_sync.Server.Net.{Dial}
use order_sync.Server.ClientUnit.{received}
use order_sync.Server.Link.{Link}
use order_sync.Server.Link
use order_sync.Server.Link.Tidy.{redial_same}
use order_sync.Server.HelperUnit.{
  HelperUnit, reset_helper, update_timer, recv_from_cgi, at_stage, settle, input_notify,
}

-- Where the helper server has closed the connection, whatever comes of the attempt to connect again,
-- with a positive descriptor if there is one: the unit ends with no descriptor, and all descriptors
-- that it had open before are open still.
pub input_notify_leaks :
    (parse : List ℕ → Option (List ℕ)) (fuel : ℕ) (d : Dial) (takes : Bool) (h : HelperUnit)
    → ((fd : ℕ) → d.socket ≡ some fd → 0 < fd)
    → (v : HelperUnit) × (input_notify parse fuel (received []) d takes h ≡ some (some false, v))
      × (v.link.netfd ≡ none)
      × (v.link.opened ≡ h.link.opened)
unfolding input_notify recv_from_cgi settle reset_helper at_stage update_timer Link.reset_helper
input_notify_leaks parse fuel d takes h positive = (_, refl, refl, redial_same d takes _ positive)
