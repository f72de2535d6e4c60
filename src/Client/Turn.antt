-- ===== src/Client/Turn.antt =====
-- The body of the loop of `order_sync_client_t::run` (OrderSyncClient/src/order_sync_client.cc): what
-- one wake-up of the poller does, around the event that Run is about. The parameters are what the
-- JSON library makes of a text and what the database answers.
use order_sync.Base.{
  ℕ, ◌+◌, ◌%◌, ◌^◌, List, [], ◌∷◌, Option, none, some, ◌==◌, if◌then◌else◌, ◌>>=◌,
}
use order_sync.Client.Packet.{Packet, clean}
use order_sync.Client.Packet.Build.{Field}
use order_sync.Client.Packet.Finish.{build, sent}
use order_sync.Client.TcpClient.{
  TcpClient, Received, Reached, drop_connection, is_closed, reconnect,
}
use order_sync.Client.Run.{Verdict, Stage, reconnecting, finished, Loop, Moment, start_send, steps}

abbrev pub cmd_data_sync : ℕ
cmd_data_sync = 0x0002

-- The writes of one event's packet.
unfoldable pub request : ℕ → ℕ → List ℕ → List Field
request client_id event_id json =
    Field.int32 client_id ∷ Field.uint64 event_id ∷ Field.text json ∷ []

pub record Client : Type 0 where
  pub tcp : TcpClient
  pub output : Packet
  pub input : Packet
  pub event_id : ℕ

-- The branch for READABLE: what `check` and `Reconnect` are answered.
unfoldable pub readable : Received → Reached → Client → Client
readable answer again c =
    if is_closed answer c.tcp
    then record c { tcp = (reconnect again (drop_connection c.tcp)).1 }
    else c

-- The library and the database, as `run` uses them: the field "type" of a text that parses, the date
-- of an order that is in the database, and the text with that date.
pub record Orders : Type 0 where
  pub order_type : List ℕ → Option ℕ
  pub order_date : List ℕ → Option ℕ
  pub stamp : ℕ → List ℕ → List ℕ

-- The text of an update, with the date of its order.
unfoldable pub stamped : Orders → List ℕ → Option (List ℕ)
stamped lib json = do date ← lib.order_date json; some (lib.stamp date json)

-- The text to be sent, if any.
unfoldable pub prepare : Orders → List ℕ → Option (List ℕ)
prepare lib json = do type ← lib.order_type json; if type == 1 then stamped lib json else some json

-- Behind the loop, whatever the verdict.
unfoldable pub end_event : Packet → Loop → Client → Option Client
end_event out s c = do
  cleaned ← clean out
  some (record {
    tcp = s.tcp;
    output = cleaned;
    input = s.input;
    event_id = (c.event_id + 1) % 2 ^ 64;
  })

unfoldable pub settle : Packet → Loop → Client → Stage → Option (Option Verdict × Client)
settle out s c (finished v) = do d ← end_event out s c; some (some v, d)
settle out s c _ = none

module _ (malloc : ℕ → Option (List ℕ)) (lib : Orders) (client_id : ℕ) where
  -- The packet is built and the loop stands at the label `send`.
  unfoldable pub begin_event : List ℕ → Client → Option (List ℕ × Packet × Loop)
  begin_event json c = do
    out ← build malloc cmd_data_sync (request client_id c.event_id json) c.output
    wire ← sent out
    some (
      wire,
      out,
      start_send wire (record { stage = reconnecting; tcp = c.tcp; input = c.input; r_errs = 0 }),
    )

  -- An event for a text that is to be sent. The answers of the kernel may end before the event does:
  -- then nothing is said.
  unfoldable pub event : List ℕ → List Moment → Client → Option (Option Verdict × Client)
  event json ms c = do
    e ← begin_event json c
    s ← steps malloc c.event_id e.0 ms e.2
    settle e.1 s c s.stage

  unfoldable pub with_text :
      Option (List ℕ) → List Moment → Client → Option (Option Verdict × Client)
  with_text none ms c = some (none, c)
  with_text (some json) ms c = event json ms c

  -- The branch for WRITEABLE with the text that was fetched. With no text, or one that is not to be
  -- sent, nothing changes.
  unfoldable pub writeable : List ℕ → List Moment → Client → Option (Option Verdict × Client)
  writeable [] ms c = some (none, c)
  writeable (b ∷ bs) ms c = with_text (prepare lib (b ∷ bs)) ms c
