-- ===== src/Proxy/Calls.antt =====
-- What the program calls on the proxy, src/clientproxy.c: `proxy_alloclient_*`, which put messages
-- in the queue to the bridge.
use allonet.Common.{ℕ, List, [], ◌∷◌, Option, String}
use allonet.Proxy.{Types, Interaction, Picture, Message, insert_tail, System, Call, ProxyClient}

-- The message that a call sends.
unfoldable pub message_of : {T : Types} → Call T → Message T
message_of (Call.connect url identity avatar_desc) = Message.connect url identity avatar_desc
message_of (Call.send_interaction i) = Message.interaction i
message_of (Call.set_intent i) = Message.intent i
message_of (Call.send_audio track_id pcm) = Message.audio track_id pcm
message_of (Call.send_video track_id picture) = Message.video track_id picture
message_of (Call.asset_request asset_id entity_id) = Message.asset_request asset_id entity_id
message_of (Call.asset_send asset_id data' offset length total_size) =
    Message.asset_send_data asset_id data' offset length total_size

module _ {T : Types} where
  unfoldable pub enqueue_proxy_to_bridge : Message T → System T → System T
  enqueue_proxy_to_bridge m s = record s { proxy_to_bridge = insert_tail s.proxy_to_bridge m }

  -- `strdup` and the copy of a buffer are the identity.
  unfoldable pub proxy_connect : String → String → String → System T → System T
  unfolding enqueue_proxy_to_bridge
  proxy_connect url identity avatar_desc =
      enqueue_proxy_to_bridge (Message.connect url identity avatar_desc)

  unfoldable pub proxy_send_interaction : Interaction → System T → System T
  unfolding enqueue_proxy_to_bridge
  proxy_send_interaction i = enqueue_proxy_to_bridge (Message.interaction i)

  unfoldable pub proxy_send_audio : ℕ → List ℕ → System T → System T
  unfolding enqueue_proxy_to_bridge
  proxy_send_audio track_id pcm = enqueue_proxy_to_bridge (Message.audio track_id pcm)

  unfoldable pub proxy_send_video : ℕ → Picture → System T → System T
  unfolding enqueue_proxy_to_bridge
  proxy_send_video track_id picture = enqueue_proxy_to_bridge (Message.video track_id picture)

  unfoldable pub proxy_asset_request : String → Option String → System T → System T
  unfolding enqueue_proxy_to_bridge
  proxy_asset_request asset_id entity_id =
      enqueue_proxy_to_bridge (Message.asset_request asset_id entity_id)

  unfoldable pub proxy_asset_send : String → Option (List ℕ) → ℕ → ℕ → ℕ → System T → System T
  unfolding enqueue_proxy_to_bridge
  proxy_asset_send asset_id data' offset length total_size =
      enqueue_proxy_to_bridge (Message.asset_send_data asset_id data' offset length total_size)

  module _ (pc : ProxyClient T) where
    unfoldable pub proxy_set_intent : T.intent → System T → System T
    unfolding enqueue_proxy_to_bridge
    proxy_set_intent i s =
        enqueue_proxy_to_bridge (Message.intent i)
          (record s { proxyclient = pc.set_intent i s.proxyclient })

    -- The functions that `clientproxy_create` puts in the proxy.
    unfoldable pub call : Call T → System T → System T
    unfolding proxy_connect proxy_send_interaction proxy_set_intent proxy_send_audio
        proxy_send_video proxy_asset_request proxy_asset_send
    call (Call.connect url identity avatar_desc) = proxy_connect url identity avatar_desc
    call (Call.send_interaction i) = proxy_send_interaction i
    call (Call.set_intent i) = proxy_set_intent i
    call (Call.send_audio track_id pcm) = proxy_send_audio track_id pcm
    call (Call.send_video track_id picture) = proxy_send_video track_id picture
    call (Call.asset_request asset_id entity_id) = proxy_asset_request asset_id entity_id
    call (Call.asset_send asset_id data' offset length total_size) =
        proxy_asset_send asset_id data' offset length total_size

    unfoldable pub call_each : List (Call T) → System T → System T
    unfolding call
    call_each [] s = s
    call_each (c ∷ cs) s = call_each cs (call c s)
