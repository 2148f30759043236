-- ===== src/Proxy.antt =====
-- The client that runs the network on a thread of its own, src/clientproxy.c: the messages that the
-- two threads send each other, and the state they share. A buffer and its length are one list, and
-- `free` is left out.
pub mod Calls
pub mod Callbacks
pub mod Bridge
pub mod Poll
pub mod Drain
pub mod Direct
pub mod Steps
pub mod Flow
pub mod Polled
pub mod Fifo
pub mod Queues
pub mod Told
pub mod Ending
pub mod Locks
pub mod Stuck
mod Examples
use allonet.Common.{
  ℕ, ◌+◌, ◌-◌, ◌%◌, ◌^◌, ◌≡◌, List, [], ◌∷◌, ◌++◌, length, Option, some, none, Bool, String,
}
use allonet.Common.Int.{ℤ}

-- The types of what is only passed on, documents of cJSON, intents and doubles, and of the states of
-- the two clients, the proxy's with the program that uses it.
pub record Types : Type 1 where
  pub doc : Type 0
  pub intent : Type 0
  pub real : Type 0
  pub proxy : Type 0
  pub bridge : Type 0

-- `allo_interaction`
pub record Interaction : Type 0 where
  pub type : String
  pub sender_entity_id : String
  pub receiver_entity_id : String
  pub request_id : String
  pub body : String

-- `allopicture`, with its pixels by their address
pub record Picture : Type 0 where
  pub pixels : ℕ
  pub width : ℕ
  pub height : ℕ

-- `proxy_message`, its type and the member of the union that goes with it.
pub data Message (T : Types) : Type 0 where
  connect : (url identity avatar_desc : String) → Message T
  interaction : Interaction → Message T
  intent : T.intent → Message T
  state_delta : T.doc → Message T
  disconnection : (code : ℤ) (msg : Option String) → Message T
  audio : (track_id : ℕ) (pcm : List ℕ) → Message T
  video : (track_id : ℕ) (picture : Picture) → Message T
  clock : (latency delta : T.real) → Message T
  ack : (rev : ℤ) → Message T
  asset_request : (asset_id : String) (entity_id : Option String) → Message T
  asset_send_data :
      (asset_id : String) (data' : Option (List ℕ)) (offset length total_size : ℕ) → Message T
  asset_state_callback : (asset_id : String) (state : ℕ) → Message T
  asset_receive_callback : (asset_id : String) (data' : List ℕ) (offset total_size : ℕ) → Message T
  asset_request_bytes_callback : (asset_id : String) (offset length : ℕ) → Message T

-- A queue and its `int32_t` length.
pub record Queue (M : Type 0) : Type 0 where
  pub messages : List M
  pub len : ℕ

-- STAILQ_INSERT_TAIL and `len++`, STAILQ_REMOVE_HEAD and `len--`.
unfoldable pub insert_tail : {M : Type 0} → Queue M → M → Queue M
insert_tail q m = record { messages = q.messages ++ (m ∷ []); len = (q.len + 1) % 2 ^ 32 }

unfoldable pub remove_head : {M : Type 0} → Queue M → List M → Queue M
remove_head q rest = record { messages = rest; len = (q.len + (2 ^ 32 - 1)) % 2 ^ 32 }

abbrev pub empty_queue : {M : Type 0} → Queue M
empty_queue = record { messages = []; len = 0 }

-- `clientproxy_internal` with its two clients: the proxy's, in which the program lives that uses it,
-- and the bridge's.
pub record System (T : Types) : Type 0 where
  pub proxyclient : T.proxy
  pub clock_latency : T.real
  pub clock_delta_to_server : T.real
  pub bridgeclient : T.bridge
  pub running : Bool
  pub exit_code : ℤ
  pub proxy_to_bridge : Queue (Message T)
  pub bridge_to_proxy : Queue (Message T)

-- What the program calls.
pub data Call (T : Types) : Type 0 where
  connect : (url identity avatar_desc : String) → Call T
  send_interaction : Interaction → Call T
  set_intent : T.intent → Call T
  send_audio : (track_id : ℕ) (pcm : List ℕ) → Call T
  send_video : (track_id : ℕ) (picture : Picture) → Call T
  asset_request : (asset_id : String) (entity_id : Option String) → Call T
  asset_send : (asset_id : String) (data' : Option (List ℕ)) (offset length total_size : ℕ) → Call T

-- What client.c calls back with.
pub data Callback (T : Types) : Type 0 where
  on_state_delta : Option T.doc → Callback T
  on_interaction : Interaction → Callback T
  on_audio : (track_id : ℕ) (pcm : List ℕ) → Callback T
  on_video : (track_id pixels pixels_wide pixels_high : ℕ) → Callback T
  on_disconnected : (code : ℤ) (message : Option String) → Callback T
  on_clock : (latency delta : T.real) → Callback T
  on_asset_state : (asset_id : String) (state : ℕ) → Callback T
  on_asset_receive :
      (asset_id : String) (data' : Option (List ℕ)) (offset length total_size : ℕ) → Callback T
  on_asset_request_bytes : (asset_id : String) (offset length : ℕ) → Callback T

-- The bridge's client: src/client/client.c, as it is called from here. Only `poll` calls back.
pub record BridgeClient (T : Types) : Type 0 where
  pub connect : String → String → String → T.bridge → Bool × T.bridge
  pub send_interaction : Interaction → T.bridge → T.bridge
  pub set_intent : T.intent → T.bridge → T.bridge
  pub send_audio : ℕ → List ℕ → T.bridge → T.bridge
  pub send_video : ℕ → Picture → T.bridge → T.bridge
  pub ack_rev : ℤ → T.bridge → T.bridge
  pub asset_request : String → Option String → T.bridge → T.bridge
  pub asset_send : String → Option (List ℕ) → ℕ → ℕ → ℕ → T.bridge → T.bridge
  pub poll : T.bridge → List (Callback T) × T.bridge
  pub disconnect : ℤ → T.bridge → T.bridge

-- A callback of the program, NULL being `none`: what it calls in its turn, and what it leaves.
abbrev pub Handler : Types → Type 0
Handler T = Option (T.proxy → List (Call T) × T.proxy)

-- The proxy's client with the program's callbacks. `parse_statediff` and `set_intent` are those of
-- src/client/client.c; the former calls the program's callback for a state.
pub record ProxyClient (T : Types) : Type 0 where
  pub set_intent : T.intent → T.proxy → T.proxy
  pub disconnect : ℤ → T.proxy → T.proxy
  pub parse_statediff : T.doc → T.proxy → ℤ × List (Call T) × T.proxy
  pub interaction_callback : Interaction → Handler T
  pub audio_callback : ℕ → List ℕ → Handler T
  pub video_callback : ℕ → Picture → Handler T
  pub disconnected_callback : ℤ → Option String → Handler T
  pub clock_callback : T.real → T.real → Handler T
  pub asset_state_callback : String → ℕ → Handler T
  pub asset_receive_callback : String → List ℕ → ℕ → ℕ → Handler T
  pub asset_request_bytes_callback : String → ℕ → ℕ → Handler T
