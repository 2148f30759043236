-- ===== src/Proxy/Callbacks.antt =====
-- What the bridge's client calls back, src/clientproxy.c: `bridge_*_callback`, which put messages in
-- the queue to the proxy.
use allonet.Common.{ℕ, List, [], ◌∷◌, Option, String, ltb}
use allonet.Common.Int.{ℤ}
use allonet.Common.Outcome.{Outcome, ok, assert, asserted, ◌>>=◌, ◌>>◌}
use allonet.Proxy.{Types, Interaction, Message, insert_tail, System, Callback}

module _ {T : Types} where
  unfoldable pub enqueue_bridge_to_proxy : Message T → System T → System T
  enqueue_bridge_to_proxy m s = record s { bridge_to_proxy = insert_tail s.bridge_to_proxy m }

  unfoldable pub bridge_asset_state : String → ℕ → System T → System T
  unfolding enqueue_bridge_to_proxy
  bridge_asset_state asset_id state =
      enqueue_bridge_to_proxy (Message.asset_state_callback asset_id state)

  -- `data'` are the `len` bytes, or NULL.
  unfoldable pub bridge_asset_receive :
      String → Option (List ℕ) → ℕ → ℕ → ℕ → System T → Outcome (System T)
  unfolding enqueue_bridge_to_proxy
  bridge_asset_receive asset_id data' offset len total_size s =
      assert (ltb 0 len)
      >> (asserted data' >>= λ copy. ok (
          enqueue_bridge_to_proxy (Message.asset_receive_callback asset_id copy offset total_size)
            s))

  unfoldable pub bridge_asset_request_bytes : String → ℕ → ℕ → System T → System T
  unfolding enqueue_bridge_to_proxy
  bridge_asset_request_bytes asset_id offset len =
      enqueue_bridge_to_proxy (Message.asset_request_bytes_callback asset_id offset len)

  unfoldable pub bridge_raw_state_delta : Option T.doc → System T → Outcome (System T)
  unfolding enqueue_bridge_to_proxy
  bridge_raw_state_delta cmd s =
      asserted cmd >>= λ doc. ok (enqueue_bridge_to_proxy (Message.state_delta doc) s)

  unfoldable pub bridge_interaction : Interaction → System T → System T
  unfolding enqueue_bridge_to_proxy
  bridge_interaction i = enqueue_bridge_to_proxy (Message.interaction i)

  unfoldable pub bridge_audio : ℕ → List ℕ → System T → System T
  unfolding enqueue_bridge_to_proxy
  bridge_audio track_id pcm = enqueue_bridge_to_proxy (Message.audio track_id pcm)

  unfoldable pub bridge_video : ℕ → ℕ → ℕ → ℕ → System T → System T
  unfolding enqueue_bridge_to_proxy
  bridge_video track_id pixels pixels_wide pixels_high = enqueue_bridge_to_proxy (
      Message.video track_id
        (record { pixels = pixels; width = pixels_wide; height = pixels_high }))

  unfoldable pub bridge_disconnected : ℤ → Option String → System T → System T
  unfolding enqueue_bridge_to_proxy
  bridge_disconnected code message = enqueue_bridge_to_proxy (Message.disconnection code message)

  unfoldable pub bridge_clock : T.real → T.real → System T → System T
  unfolding enqueue_bridge_to_proxy
  bridge_clock latency delta = enqueue_bridge_to_proxy (Message.clock latency delta)

  -- The callbacks that `clientproxy_create` puts in the bridge's client.
  unfoldable pub callback : Callback T → System T → Outcome (System T)
  unfolding bridge_asset_state bridge_asset_receive bridge_asset_request_bytes
      bridge_raw_state_delta bridge_interaction bridge_audio bridge_video bridge_disconnected
      bridge_clock
  callback (Callback.on_state_delta cmd) s = bridge_raw_state_delta cmd s
  callback (Callback.on_interaction i) s = ok (bridge_interaction i s)
  callback (Callback.on_audio track_id pcm) s = ok (bridge_audio track_id pcm s)
  callback (Callback.on_video track_id pixels wide high) s =
      ok (bridge_video track_id pixels wide high s)
  callback (Callback.on_disconnected code message) s = ok (bridge_disconnected code message s)
  callback (Callback.on_clock latency delta) s = ok (bridge_clock latency delta s)
  callback (Callback.on_asset_state asset_id state) s = ok (bridge_asset_state asset_id state s)
  callback (Callback.on_asset_receive asset_id data' offset len total_size) s =
      bridge_asset_receive asset_id data' offset len total_size s
  callback (Callback.on_asset_request_bytes asset_id offset len) s =
      ok (bridge_asset_request_bytes asset_id offset len s)

  unfoldable pub callback_each : List (Callback T) → System T → Outcome (System T)
  unfolding callback
  callback_each [] s = ok s
  callback_each (c ∷ cs) s = callback c s >>= callback_each cs
