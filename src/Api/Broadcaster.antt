-- ===== src/Api/Broadcaster.antt =====
-- packages/api/src/broadcaster.ts: the broadcaster of database notifications. What the network and the
-- timers do is a list of inputs. A client of `pg` that was connected once cannot be connected again.
pub mod Reconnects
pub mod Kept
pub mod Upkeep
pub mod Resync
use stellars_finance_contrac.Base.{
  ℕ, zero, suc, ◌+◌, ◌*◌, ◌/◌, ◌^◌, min, Bool, true, false, ◌&&◌, ◌||◌, not, List, [], ◌∷◌, ◌++◌,
  if◌then◌else◌, length, leb, map,
}
use Prim.Native.String.{String}
use text.Mathlib.Text.{◌==◌}

-- A function in the set of a channel.
pub record Subscription : Type 0 where
  pub channel : String
  pub subscriber : ℕ

pub data Payload : Type 0 where
  resync : Payload
  notified : String → Payload

pub record Delivery : Type 0 where
  pub target : Subscription
  pub payload : Payload

-- `used` says that the current client was connected before, `client` lists the channels that it
-- listens to, and `timers` the delays of the reconnects that are due. `delivered` is a log; a
-- reconnect's marks are in it in the order of the subscriptions, where the code goes by channel.
pub record Broadcaster : Type 0 where
  pub subscribers : List Subscription
  pub listening : List String
  pub client : List String
  pub used : Bool
  pub connected_flag : Bool
  pub shutting_down : Bool
  pub reconnect_attempt : ℕ
  pub timers : List ℕ
  pub delivered : List Delivery

abbrev pub created : Broadcaster
created = record {
  subscribers = [];
  listening = [];
  client = [];
  used = false;
  connected_flag = false;
  shutting_down = false;
  reconnect_attempt = 0;
  timers = [];
  delivered = [];
}

unfoldable pub connected : Broadcaster → Bool
connected b = b.connected_flag && not b.shutting_down

-- `random` is a numerator over `2 ^ 53`.
unfoldable pub delay_ms : ℕ → ℕ → ℕ
delay_ms random attempt = min (500 * 2 ^ min attempt 6) 30_000 + 200 * random / 2 ^ 53

unfoldable pub schedule_reconnect : ℕ → Broadcaster → Broadcaster
schedule_reconnect random b = if b.shutting_down then b else record b {
  reconnect_attempt = suc b.reconnect_attempt;
  timers = delay_ms random (suc b.reconnect_attempt) ∷ b.timers;
}

unfoldable pub handle_disconnect : ℕ → Broadcaster → Broadcaster
handle_disconnect random b =
    if b.shutting_down
    then b
    else if not b.connected_flag
    then b
    else schedule_reconnect random (record b { connected_flag = false })

-- `connect`, which a client refuses that was connected before; `ok` says whether the server accepts.
unfoldable pub connect : Bool → Broadcaster → Broadcaster
connect ok b =
    if b.connected_flag
    then b
    else if not b.used && ok
    then record b { used = true; connected_flag = true }
    else record b { used = true }

unfoldable pub has : List String → String → Bool
has [] channel = false
has (x ∷ xs) channel = x == channel || has xs channel

unfoldable pub holds : List Subscription → Subscription → Bool
holds [] s = false
holds (x ∷ xs) s =
    leb x.subscriber s.subscriber && leb s.subscriber x.subscriber && x.channel == s.channel
    || holds xs s

-- `subs.add(fn)`
unfoldable pub add_subscriber : Subscription → Broadcaster → Broadcaster
add_subscriber s b =
    if holds b.subscribers s then b else record b { subscribers = b.subscribers ++ s ∷ [] }

abbrev pub listen : String → Broadcaster → Broadcaster
listen channel b = record b {
  listening = b.listening ++ channel ∷ [];
  client = b.client ++ channel ∷ [];
}

-- What follows the `connect` of a subscription; a `LISTEN` fails if its name is no identifier or the
-- server refuses it.
abbrev pub after_connect : Bool → Subscription → Broadcaster → Broadcaster
after_connect listens s b =
    if b.connected_flag
    then (if has b.listening s.channel
        then add_subscriber s b
        else if listens
        then add_subscriber s (listen s.channel b)
        else b)
    else b

unfoldable pub subscribe : Bool → Bool → Subscription → Broadcaster → Broadcaster
subscribe connects listens s b = after_connect listens s (connect connects b)

unfoldable pub remove : Subscription → List Subscription → List Subscription
remove s [] = []
remove s (x ∷ xs) =
    let rest = remove s xs in
    if leb x.subscriber s.subscriber && leb s.subscriber x.subscriber && x.channel == s.channel
    then rest
    else x ∷ rest

unfoldable pub unsubscribe : Subscription → Broadcaster → Broadcaster
unsubscribe s b = record b { subscribers = remove s b.subscribers }

unfoldable pub on_channel : String → List Subscription → List Subscription
on_channel channel [] = []
on_channel channel (x ∷ xs) =
    let rest = on_channel channel xs in if x.channel == channel then x ∷ rest else rest

abbrev pub deliver : Payload → Subscription → Delivery
deliver payload s = record { target = s; payload = payload }

-- The client's `notification` event, for a channel that it listens to.
unfoldable pub notify : String → String → Broadcaster → Broadcaster
notify channel payload b =
    if has b.client channel
    then record b {
      delivered =
          b.delivered
          ++ map (deliver (Payload.notified payload)) (on_channel channel b.subscribers);
    }
    else b

unfoldable pub take : ℕ → List String → List String
take zero xs = []
take (suc n) [] = []
take (suc n) (x ∷ xs) = x ∷ take n xs

-- A reconnect: a new client connects if the server accepts, and then listens to the channels until
-- one is refused; `accepted` counts those that are not.
abbrev pub reconnect : Bool → ℕ → ℕ → Broadcaster → Broadcaster
reconnect ok accepted random b =
    if ok && leb (length b.listening) accepted
    then record b {
      client = b.listening;
      used = true;
      connected_flag = true;
      reconnect_attempt = 0;
      delivered = b.delivered ++ map (deliver Payload.resync) b.subscribers;
    }
    else schedule_reconnect random
        (record b { client = if ok then take accepted b.listening else []; used = true })

-- A timer's callback.
abbrev pub fire : Bool → ℕ → ℕ → List ℕ → Broadcaster → Broadcaster
fire ok accepted random [] b = b
fire ok accepted random (delay ∷ timers) b =
    let due = record b { timers = timers } in
    if b.shutting_down then due else reconnect ok accepted random due

-- `close`, whose `end` of the client is awaited.
unfoldable pub close : Broadcaster → Broadcaster
close b =
    if b.connected_flag
    then record b { shutting_down = true; connected_flag = false; client = [] }
    else record b { shutting_down = true }

pub data Input : Type 0 where
  connects : (ok : Bool) → Input
  subscribes : (ok : Bool) → (listens : Bool) → Subscription → Input
  unsubscribes : Subscription → Input
  disconnects : (random : ℕ) → Input
  fires : (ok : Bool) → (accepted : ℕ) → (random : ℕ) → Input
  notifies : (channel : String) → (payload : String) → Input
  closes : Input

-- A client that errs or ends listens no more.
unfoldable pub perform : Input → Broadcaster → Broadcaster
perform (Input.connects ok) b = connect ok b
perform (Input.subscribes ok listens s) b = subscribe ok listens s b
perform (Input.unsubscribes s) b = unsubscribe s b
perform (Input.disconnects random) b = handle_disconnect random (record b { client = [] })
perform (Input.fires ok accepted random) b = fire ok accepted random b.timers b
perform (Input.notifies channel payload) b = notify channel payload b
perform Input.closes b = close b

unfoldable pub run : List Input → Broadcaster → Broadcaster
run [] b = b
run (input ∷ inputs) b = run inputs (perform input b)
