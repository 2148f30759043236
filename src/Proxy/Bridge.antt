-- ===== src/Proxy/Bridge.antt =====
-- The thread of the bridge, src/clientproxy.c: the handlers of the messages from the proxy, their
-- table, and the loop of `_bridgethread`.
use allonet.Common.{ℕ, zero, suc, List, [], ◌∷◌, Option, none, some, true, false, String, length}
use allonet.Common.Int.{ℤ, pos}
use allonet.Common.Outcome.{Outcome, ok, out_of_fuel, asserted, ◌>>=◌}
use allonet.Proxy.{Types, Interaction, Picture, Message, remove_head, System, BridgeClient}
use allonet.Proxy.Callbacks.{bridge_disconnected, callback_each}

-- `alloerror_failed_to_connect`
abbrev pub failed_to_connect : ℤ
failed_to_connect = pos 1004

module _ {T : Types} (bc : BridgeClient T) where
  unfoldable pub bridge_connect : String → String → String → System T → System T
  unfolding bridge_disconnected
  bridge_connect url identity avatar_desc s =
      let r = bc.connect url identity avatar_desc s.bridgeclient in
      let t = record s { bridgeclient = r.1 } in
      elim r.0 [
        | true ↦ t
        | false ↦ bridge_disconnected failed_to_connect (some "Failed to connect") t
      ]

  unfoldable pub bridge_disconnect : ℤ → System T → System T
  bridge_disconnect code s = record s { running = false; exit_code = code }

  abbrev on_client : (T.bridge → T.bridge) → System T → System T
  on_client f s = record s { bridgeclient = f s.bridgeclient }

  unfoldable pub bridge_send_interaction : Interaction → System T → System T
  bridge_send_interaction i = on_client (bc.send_interaction i)

  unfoldable pub bridge_set_intent : T.intent → System T → System T
  bridge_set_intent i = on_client (bc.set_intent i)

  unfoldable pub bridge_send_audio : ℕ → List ℕ → System T → System T
  bridge_send_audio track_id pcm = on_client (bc.send_audio track_id pcm)

  unfoldable pub bridge_send_video : ℕ → Picture → System T → System T
  bridge_send_video track_id picture = on_client (bc.send_video track_id picture)

  unfoldable pub bridge_ack : ℤ → System T → System T
  bridge_ack rev = on_client (bc.ack_rev rev)

  unfoldable pub bridge_asset_request : String → Option String → System T → System T
  bridge_asset_request asset_id entity_id = on_client (bc.asset_request asset_id entity_id)

  unfoldable pub bridge_asset_send : String → Option (List ℕ) → ℕ → ℕ → ℕ → System T → System T
  bridge_asset_send asset_id data' offset length total_size =
      on_client (bc.asset_send asset_id data' offset length total_size)

  -- `bridge_message_lookup_table`, with the message put in; no entry is `none`.
  unfoldable pub bridge_message_lookup_table : Message T → Option (System T → System T)
  unfolding bridge_connect bridge_disconnect bridge_send_interaction bridge_set_intent
      bridge_send_audio bridge_send_video bridge_ack bridge_asset_request bridge_asset_send
  bridge_message_lookup_table (Message.connect url identity avatar_desc) =
      some (bridge_connect url identity avatar_desc)
  bridge_message_lookup_table (Message.disconnection code msg) = some (bridge_disconnect code)
  bridge_message_lookup_table (Message.interaction i) = some (bridge_send_interaction i)
  bridge_message_lookup_table (Message.intent i) = some (bridge_set_intent i)
  bridge_message_lookup_table (Message.audio track_id pcm) = some (bridge_send_audio track_id pcm)
  bridge_message_lookup_table (Message.video track_id picture) =
      some (bridge_send_video track_id picture)
  bridge_message_lookup_table (Message.ack rev) = some (bridge_ack rev)
  bridge_message_lookup_table (Message.asset_request asset_id entity_id) =
      some (bridge_asset_request asset_id entity_id)
  bridge_message_lookup_table (Message.asset_send_data asset_id data' offset length total_size) =
      some (bridge_asset_send asset_id data' offset length total_size)
  bridge_message_lookup_table _ = none

  -- One round of the loop of `bridge_check_for_messages`.
  unfoldable pub bridge_take : Message T → List (Message T) → System T → Outcome (System T)
  unfolding bridge_message_lookup_table
  bridge_take m rest s = asserted (bridge_message_lookup_table m) >>= λ handle.
      ok (handle (record s { proxy_to_bridge = remove_head s.proxy_to_bridge rest }))

  unfoldable pub check_for_messages : ℕ → System T → Outcome (System T)
  unfolding bridge_take
  check_for_messages zero s = out_of_fuel
  check_for_messages (suc fuel) s = elim s.proxy_to_bridge.messages [
    | [] ↦ ok s
    | m ∷ rest ↦ bridge_take m rest s >>= check_for_messages fuel
  ]

  -- `bridge_check_for_network`
  unfoldable pub check_for_network : System T → Outcome (System T)
  unfolding callback_each
  check_for_network s =
      let r = bc.poll s.bridgeclient in callback_each r.0 (record s { bridgeclient = r.1 })

  -- The body of the loop of `_bridgethread`, and the loop. Between the two calls the proxy may send
  -- more; here it does not.
  unfoldable pub bridge_round : ℕ → System T → Outcome (System T)
  unfolding check_for_network check_for_messages
  bridge_round fuel s = check_for_network s >>= check_for_messages fuel

  unfoldable pub bridgethread : ℕ → ℕ → System T → Outcome (System T)
  unfolding bridge_round
  bridgethread zero fuel s = out_of_fuel
  bridgethread (suc rounds) fuel s = elim s.running [
    | true ↦ bridge_round fuel s >>= bridgethread rounds fuel
    | false ↦ ok (record s { bridgeclient = bc.disconnect s.exit_code s.bridgeclient })
  ]
