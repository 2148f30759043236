-- ===== src/Proxy/Steps.antt =====
-- The two threads of src/clientproxy.c, interleaved: a message is put in a queue or taken out and
-- handled in one step, under the lock of that queue.
use allonet.Common.{◌≡◌, List, [], ◌∷◌, ◌++◌, map, some, none, true, false}
use allonet.Common.Outcome.{ok}
use allonet.Proxy.{Types, Message, System, Call, Callback, Handler, ProxyClient, BridgeClient}
use allonet.Common.Int.{ℤ}
use allonet.Proxy.Calls.{message_of, call, enqueue_proxy_to_bridge}
use allonet.Proxy.Callbacks.{callback}
use allonet.Proxy.Bridge.{failed_to_connect, bridge_take}
use allonet.Proxy.Poll.{proxy_take}

-- What a step puts in a queue and what it takes out.
pub record Traffic (M : Type 0) : Type 0 where
  pub sent : List M
  pub taken : List M

abbrev pub silent : {M : Type 0} → Traffic M
silent = record { sent = []; taken = [] }

abbrev pub sends : {M : Type 0} → List M → Traffic M
sends ms = record { sent = ms; taken = [] }

abbrev pub takes : {M : Type 0} → M → Traffic M
takes m = record { sent = []; taken = m ∷ [] }

abbrev pub and_then : {M : Type 0} → Traffic M → Traffic M → Traffic M
and_then a b = record { sent = a.sent ++ b.sent; taken = a.taken ++ b.taken }

module _ {T : Types} where
  module _ (pc : ProxyClient T) where
    -- The messages to the bridge with which the program answers a message.
    abbrev pub calls_of : Handler T → T.proxy → List (Message T)
    calls_of none p = []
    calls_of (some f) p = map message_of (f p).0

    abbrev pub answers : Message T → System T → List (Message T)
    answers (Message.state_delta doc) s =
        let r = pc.parse_statediff doc s.proxyclient in map message_of r.1 ++ (Message.ack r.0 ∷ [])
    answers (Message.interaction i) s = calls_of (pc.interaction_callback i) s.proxyclient
    answers (Message.audio track_id pcm) s = calls_of (pc.audio_callback track_id pcm) s.proxyclient
    answers (Message.video track_id picture) s =
        calls_of (pc.video_callback track_id picture) s.proxyclient
    answers (Message.disconnection code msg) s =
        calls_of (pc.disconnected_callback code msg) s.proxyclient
    answers (Message.clock latency delta) s =
        calls_of (pc.clock_callback latency delta) s.proxyclient
    answers (Message.asset_state_callback asset_id state) s =
        calls_of (pc.asset_state_callback asset_id state) s.proxyclient
    answers (Message.asset_receive_callback asset_id data' offset total_size) s =
        calls_of (pc.asset_receive_callback asset_id data' offset total_size) s.proxyclient
    answers (Message.asset_request_bytes_callback asset_id offset len) s =
        calls_of (pc.asset_request_bytes_callback asset_id offset len) s.proxyclient
    answers _ s = []

  -- The messages to the proxy that come of a message to the bridge, and of a callback.
  abbrev pub reports : BridgeClient T → Message T → System T → List (Message T)
  reports bc (Message.connect url identity avatar_desc) s =
      elim (bc.connect url identity avatar_desc s.bridgeclient).0 [
        | true ↦ []
        | false ↦ Message.disconnection failed_to_connect (some "Failed to connect") ∷ []
      ]
  reports bc _ s = []

  abbrev pub message_for : Callback T → List (Message T)
  message_for (Callback.on_state_delta none) = []
  message_for (Callback.on_state_delta (some doc)) = Message.state_delta doc ∷ []
  message_for (Callback.on_interaction i) = Message.interaction i ∷ []
  message_for (Callback.on_audio track_id pcm) = Message.audio track_id pcm ∷ []
  message_for (Callback.on_video track_id pixels wide high) =
      Message.video track_id (record { pixels = pixels; width = wide; height = high }) ∷ []
  message_for (Callback.on_disconnected code message) = Message.disconnection code message ∷ []
  message_for (Callback.on_clock latency delta) = Message.clock latency delta ∷ []
  message_for (Callback.on_asset_state asset_id state) =
      Message.asset_state_callback asset_id state ∷ []
  message_for (Callback.on_asset_receive asset_id none offset len total_size) = []
  message_for (Callback.on_asset_receive asset_id (some data') offset len total_size) =
      Message.asset_receive_callback asset_id data' offset total_size ∷ []
  message_for (Callback.on_asset_request_bytes asset_id offset len) =
      Message.asset_request_bytes_callback asset_id offset len ∷ []

  module _ (pc : ProxyClient T) (bc : BridgeClient T) where
    -- A call of the program, its disconnection as far as `thrd_join`, a message that the proxy handles,
    -- one that the bridge handles, the network at work, and what it calls back; each with the traffic
    -- to the bridge and to the proxy. That the program's thread does nothing more once it has
    -- disconnected, and the other none once it has ended, is not asked.
    pub data Step : System T → Traffic (Message T) → Traffic (Message T) → System T → Type 0 where
      called : (c : Call T) (s : System T) → Step s (sends (message_of c ∷ [])) silent (call pc c s)
      left :
          (reason : ℤ) (s : System T)
          → Step s
              (sends (Message.disconnection reason none ∷ []))
              silent
              (enqueue_proxy_to_bridge (Message.disconnection reason none) s)
      polled :
          (m : Message T) (rest : List (Message T)) (s t : System T)
          → s.bridge_to_proxy.messages ≡ m ∷ rest
          → proxy_take pc m rest s ≡ ok t
          → Step s (sends (answers pc m s)) (takes m) t
      handled :
          (m : Message T) (rest : List (Message T)) (s t : System T)
          → s.proxy_to_bridge.messages ≡ m ∷ rest
          → bridge_take bc m rest s ≡ ok t
          → Step s (takes m) (sends (reports bc m s)) t
      serviced :
          (b : T.bridge) (s : System T) → Step s silent silent (record s { bridgeclient = b })
      called_back :
          (c : Callback T) (s t : System T)
          → callback c s ≡ ok t
          → Step s silent (sends (message_for c)) t

    pub data Run : System T → Traffic (Message T) → Traffic (Message T) → System T → Type 0 where
      here : (s : System T) → Run s silent silent s
      onward :
          (s t u : System T) (to_bridge to_proxy onto_bridge onto_proxy : Traffic (Message T))
          → Step s to_bridge to_proxy t
          → Run t onto_bridge onto_proxy u
          → Run s (and_then to_bridge onto_bridge) (and_then to_proxy onto_proxy) u
