-- ===== src/Proxy/Examples.antt =====
-- The proxy at concrete values: tests, and the theorems where their hypotheses hold.
use allonet.Common.{ℕ, ◌≡◌, ◌↔◌, ◌⊎◌, refl, List, [], ◌∷◌, ◌++◌, none, some, true, false, arith}
use allonet.Common.Int.{pos}
use allonet.Common.Outcome.{ok}
use allonet.Proxy.{
  Types, Interaction, Message, insert_tail, remove_head, System, Call, Callback, ProxyClient,
  BridgeClient,
}
use allonet.Proxy.Calls.{message_of, call_each, enqueue_proxy_to_bridge}
use allonet.Proxy.Callbacks.{callback}
use allonet.Proxy.Bridge.{bridge_take, check_for_messages, check_for_network}
use allonet.Proxy.Poll.{proxy_take, poll, proxy_disconnect}
use allonet.Proxy.Direct.{direct_each, check_for_messages-direct_each}
use allonet.Proxy.Drain.{act_each}
use allonet.Proxy.Steps.{Traffic, polled, handled, called_back, Run, here, onward}
use allonet.Proxy.Queues.{created, IsServed, Run-order, Run-IsServed}
use allonet.Proxy.Told.{after_disconnect}
use allonet.Proxy.Ending.{proxy_disconnect_ends}
use allonet.Proxy.Locks.{ProxyAt, BridgeAt, Reaches, IsStuck}
use allonet.Proxy.Stuck.{IsDeadlock, IsDone, Reaches-IsStuck}

-- Clients that note what they are asked, by numbers; documents, intents and doubles are numbers.
abbrev noting : Types
noting = record { doc = ℕ; intent = ℕ; real = ℕ; proxy = List ℕ; bridge = List ℕ }

abbrev bridge_client : BridgeClient noting
bridge_client = record {
  connect = λ url identity avatar_desc b. (false, 1 ∷ b);
  send_interaction = λ i b. 2 ∷ b;
  set_intent = λ i b. i ∷ b;
  send_audio = λ track_id pcm b. track_id ∷ b;
  send_video = λ track_id picture b. track_id ∷ b;
  ack_rev = λ rev b. 7 ∷ b;
  asset_request = λ asset_id entity_id b. 8 ∷ b;
  asset_send = λ asset_id data' offset len total_size b. 9 ∷ b;
  poll = λ b. ([], 5 ∷ b);
  disconnect = λ reason b. 6 ∷ b;
}

-- The program answers an interaction with one of its own.
abbrev greeting : Interaction
greeting = record {
  type = "request";
  sender_entity_id = "a";
  receiver_entity_id = "place";
  request_id = "1";
  body = "[]";
}

abbrev proxy_client : ProxyClient noting
proxy_client = record {
  set_intent = λ i p. i ∷ p;
  disconnect = λ reason p. 6 ∷ p;
  parse_statediff = λ doc p. (pos doc, [], doc ∷ p);
  interaction_callback = λ i. some (λ p. (Call.send_interaction i ∷ [], 2 ∷ p));
  audio_callback = λ track_id pcm. none;
  video_callback = λ track_id picture. none;
  disconnected_callback = λ code msg. some (λ p. ([], 4 ∷ p));
  clock_callback = λ latency delta. none;
  asset_state_callback = λ asset_id state. none;
  asset_receive_callback = λ asset_id data' offset total_size. none;
  asset_request_bytes_callback = λ asset_id offset len. none;
}

abbrev fresh : System noting
fresh = created [] [] 0

abbrev three : List (Call noting)
three = Call.set_intent 20 ∷ Call.connect "u" "i" "d" ∷ Call.send_audio 30 [] ∷ []

-- The intent is noted in both clients; the connection fails.
checks :
    check_for_messages bridge_client 4 (call_each proxy_client three fresh)
    ≡ ok (record fresh {
      proxyclient = 20 ∷ [];
      bridgeclient = 30 ∷ 1 ∷ 20 ∷ [];
      bridge_to_proxy = record {
        messages = Message.disconnection (pos 1004) (some "Failed to connect") ∷ [];
        len = 1;
      };
    })
unfolding check_for_messages call_each created insert_tail remove_head
checks = refl

check_for_messages-direct_each_example :
    (t : System noting) × (check_for_messages bridge_client 4 (call_each proxy_client three fresh)
      ≡ ok t)
    × (t.bridgeclient ≡ direct_each bridge_client three fresh.bridgeclient)
    × (t.proxy_to_bridge.messages ≡ [])
unfolding created
check_for_messages-direct_each_example =
    check_for_messages-direct_each proxy_client bridge_client 4 three fresh refl (omega arith)

-- The network brings an interaction, the program is told and answers, and the bridge handles that.
abbrev brought : System noting
brought = record fresh {
  bridge_to_proxy = record { messages = Message.interaction greeting ∷ []; len = 1 };
}

abbrev answered : System noting
answered = record fresh {
  proxyclient = 2 ∷ [];
  proxy_to_bridge = record { messages = Message.interaction greeting ∷ []; len = 1 };
}

abbrev to_and_fro : Traffic (Message noting)
to_and_fro = record {
  sent = Message.interaction greeting ∷ [];
  taken = Message.interaction greeting ∷ [];
}

abbrev last : System noting
last = record fresh { proxyclient = 2 ∷ []; bridgeclient = 2 ∷ [] }

brought_step : callback (Callback.on_interaction greeting) fresh ≡ ok brought
unfolding callback created insert_tail
brought_step = refl

answered_step : proxy_take proxy_client (Message.interaction greeting) [] brought ≡ ok answered
unfolding proxy_take created insert_tail remove_head
answered_step = refl

handled_step : bridge_take bridge_client (Message.interaction greeting) [] answered ≡ ok last
unfolding bridge_take created remove_head
handled_step = refl

run : Run proxy_client bridge_client fresh to_and_fro to_and_fro last
unfolding created message_of
run =
    onward _ _ _ _ _ _ _ (called_back (Callback.on_interaction greeting) fresh brought brought_step)
      (onward _ _ _ _ _ _ _
        (polled (Message.interaction greeting) [] brought answered refl answered_step)
        (onward _ _ _ _ _ _ _
          (handled (Message.interaction greeting) [] answered last refl handled_step) (here last)))

Run-order_example :
    (to_and_fro.sent ≡ to_and_fro.taken ++ last.proxy_to_bridge.messages)
    × (to_and_fro.sent ≡ to_and_fro.taken ++ last.bridge_to_proxy.messages)
Run-order_example = Run-order proxy_client bridge_client [] [] 0 last to_and_fro to_and_fro run

Run-IsServed_example : IsServed proxy_client bridge_client last
Run-IsServed_example =
    Run-IsServed proxy_client bridge_client [] [] 0 last to_and_fro to_and_fro run

abbrev waiting : List (Message noting)
waiting =
    Message.interaction greeting ∷ Message.disconnection (pos 1) none ∷ Message.state_delta 3 ∷ []

abbrev crowded : System noting
crowded = record fresh { bridge_to_proxy = record { messages = waiting; len = 3 } }

stops : after_disconnect waiting ≡ Message.state_delta 3 ∷ []
unfolding after_disconnect
stops = refl

abbrev calling : System noting
calling = record fresh { proxy_to_bridge = record { messages = Message.intent 20 ∷ []; len = 1 } }

abbrev polled_once : System noting
polled_once = record (enqueue_proxy_to_bridge (Message.disconnection (pos 2) none) calling) {
  bridgeclient = 5 ∷ [];
}

network_quiet :
    check_for_network bridge_client
      (enqueue_proxy_to_bridge (Message.disconnection (pos 2) none) calling)
    ≡ ok polled_once
unfolding check_for_network created enqueue_proxy_to_bridge
network_quiet = refl

proxy_disconnect_ends_example :
    (t : System noting) × (proxy_disconnect proxy_client false bridge_client 2 3 (pos 2) calling
      ≡ ok t)
    × (t.running ≡ false)
    × (t.proxy_to_bridge.messages ≡ [])
    × (t.bridgeclient ≡ 6 ∷ act_each bridge_client (Message.intent 20 ∷ []) (5 ∷ []))
unfolding created
proxy_disconnect_ends_example =
    proxy_disconnect_ends proxy_client bridge_client 3 (pos 2) calling polled_once refl (tt, tt)
      network_quiet (omega arith)

Reaches-IsStuck_example :
    (Reaches (ProxyAt.joining true) (BridgeAt.report_waits false)
      × IsStuck (ProxyAt.joining true) (BridgeAt.report_waits false))
    ↔ (IsDeadlock (ProxyAt.joining true) (BridgeAt.report_waits false)
        ⊎ IsDone (ProxyAt.joining true) (BridgeAt.report_waits false))
Reaches-IsStuck_example = Reaches-IsStuck (ProxyAt.joining true) (BridgeAt.report_waits false)
