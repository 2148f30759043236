-- ===== src/Proxy/Poll.antt =====
-- The thread of the program, src/clientproxy.c: the handlers of the messages from the bridge, their
-- table, and `proxy_alloclient_poll`.
use allonet.Common.{
  length, ltb, if◌then◌else◌, ℕ, zero, suc, List, [], ◌∷◌, Option, none, some, Bool, true, false,
  String,
}
use allonet.Common.Int.{ℤ}
use allonet.Common.Outcome.{Outcome, ok, wild, out_of_fuel, asserted, ◌>>=◌}
use allonet.Proxy.{
  Types, Interaction, Picture, Message, remove_head, System, Handler, ProxyClient, BridgeClient,
}
use allonet.Proxy.Calls.{enqueue_proxy_to_bridge, call_each}
use allonet.Proxy.Bridge.{bridgethread}

abbrev pub is_disconnect : {T : Types} → Message T → Bool
is_disconnect (Message.disconnection _ _) = true
is_disconnect _ = false

module _ {T : Types} (pc : ProxyClient T) where
  -- A callback of the program, which may call the proxy.
  unfoldable pub run : Handler T → System T → System T
  unfolding call_each
  run none s = s
  run (some f) s = let r = f s.proxyclient in call_each pc r.0 (record s { proxyclient = r.1 })

  unfoldable pub proxy_raw_state_delta : T.doc → System T → System T
  unfolding enqueue_proxy_to_bridge call_each
  proxy_raw_state_delta doc s =
      let r = pc.parse_statediff doc s.proxyclient in
      enqueue_proxy_to_bridge (Message.ack r.0) (call_each pc r.1 (record s { proxyclient = r.2 }))

  unfoldable pub proxy_interaction : Interaction → System T → System T
  unfolding run
  proxy_interaction i = run (pc.interaction_callback i)

  unfoldable pub proxy_audio : ℕ → List ℕ → System T → System T
  unfolding run
  proxy_audio track_id pcm = run (pc.audio_callback track_id pcm)

  unfoldable pub proxy_video : ℕ → Picture → System T → System T
  unfolding run
  proxy_video track_id picture = run (pc.video_callback track_id picture)

  unfoldable pub proxy_disconnected : ℤ → Option String → System T → System T
  unfolding run
  proxy_disconnected code msg = run (pc.disconnected_callback code msg)

  unfoldable pub proxy_clock : T.real → T.real → System T → System T
  unfolding run
  proxy_clock latency delta s =
      run (pc.clock_callback latency delta)
        (record s { clock_latency = latency; clock_delta_to_server = delta })

  unfoldable pub proxy_asset_state : String → ℕ → System T → System T
  unfolding run
  proxy_asset_state asset_id state = run (pc.asset_state_callback asset_id state)

  unfoldable pub proxy_asset_receive : String → List ℕ → ℕ → ℕ → System T → System T
  unfolding run
  proxy_asset_receive asset_id data' offset total_size =
      run (pc.asset_receive_callback asset_id data' offset total_size)

  unfoldable pub proxy_asset_request_bytes : String → ℕ → ℕ → System T → System T
  unfolding run
  proxy_asset_request_bytes asset_id offset len =
      run (pc.asset_request_bytes_callback asset_id offset len)

  -- `proxy_message_lookup_table`, with the message put in; no entry is `none`.
  unfoldable pub proxy_message_lookup_table : Message T → Option (System T → System T)
  unfolding proxy_raw_state_delta proxy_interaction proxy_audio proxy_video proxy_disconnected
      proxy_clock proxy_asset_state proxy_asset_receive proxy_asset_request_bytes
  proxy_message_lookup_table (Message.state_delta doc) = some (proxy_raw_state_delta doc)
  proxy_message_lookup_table (Message.interaction i) = some (proxy_interaction i)
  proxy_message_lookup_table (Message.audio track_id pcm) = some (proxy_audio track_id pcm)
  proxy_message_lookup_table (Message.video track_id picture) = some (proxy_video track_id picture)
  proxy_message_lookup_table (Message.disconnection code msg) = some (proxy_disconnected code msg)
  proxy_message_lookup_table (Message.clock latency delta) = some (proxy_clock latency delta)
  proxy_message_lookup_table (Message.asset_state_callback asset_id state) =
      some (proxy_asset_state asset_id state)
  proxy_message_lookup_table (Message.asset_receive_callback asset_id data' offset total_size) =
      some (proxy_asset_receive asset_id data' offset total_size)
  proxy_message_lookup_table (Message.asset_request_bytes_callback asset_id offset len) =
      some (proxy_asset_request_bytes asset_id offset len)
  proxy_message_lookup_table _ = none

  -- One round of the loop of `proxy_alloclient_poll`, but for its end.
  unfoldable pub proxy_take : Message T → List (Message T) → System T → Outcome (System T)
  unfolding proxy_message_lookup_table
  proxy_take m rest s = asserted (proxy_message_lookup_table m) >>= λ handle.
      ok (handle (record s { bridge_to_proxy = remove_head s.bridge_to_proxy rest }))

  unfoldable pub poll : ℕ → System T → Outcome (System T)
  unfolding proxy_take
  poll zero s = out_of_fuel
  poll (suc fuel) s = elim s.bridge_to_proxy.messages [
    | [] ↦ ok s
    | m ∷ rest ↦
        proxy_take m rest s >>= λ t. elim (is_disconnect m) [ true ↦ ok t | false ↦ poll fuel t ]
  ]

  -- Whether the bridge's thread would have had to report something, for which it takes
  -- `bridge_to_proxy_mtx`.
  abbrev pub has_reported : System T → System T → Bool
  has_reported s t = ltb (length s.bridge_to_proxy.messages) (length t.bridge_to_proxy.messages)

  -- `proxy_alloclient_disconnect`: `thrd_join` waits for the end of the bridge's thread. `in_poll`
  -- says whether it is called in a callback of the poll, under `bridge_to_proxy_mtx`: then the
  -- bridge's thread does not end if it has something to report, and otherwise the poll goes on with
  -- a mutex and queues that have been freed.
  unfoldable pub proxy_disconnect :
      Bool → BridgeClient T → ℕ → ℕ → ℤ → System T → Outcome (System T)
  unfolding enqueue_proxy_to_bridge bridgethread
  proxy_disconnect in_poll bc rounds fuel reason s =
      bridgethread bc rounds fuel (enqueue_proxy_to_bridge (Message.disconnection reason none) s)
      >>= λ t. elim in_poll [
        | false ↦ ok (record t { proxyclient = pc.disconnect reason t.proxyclient })
        | true ↦ if has_reported s t then out_of_fuel else wild
      ]
