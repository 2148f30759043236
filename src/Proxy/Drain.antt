-- ===== src/Proxy/Drain.antt =====
-- The bridge's end of the queue from the proxy, `bridge_check_for_messages` of src/clientproxy.c.
use allonet.Common.{
  ℕ, zero, suc, ◌<◌, ◌≡◌, refl, ap, ◌∙◌, List, [], ◌∷◌, length, Bool, false, arith, Bool-cases, inl,
  inr,
}
use allonet.Common.Int.{ℤ}
use allonet.Common.All.{All}
use allonet.Common.Outcome.{ok}
use allonet.Proxy.{Types, Message, remove_head, System, BridgeClient}
use allonet.Proxy.Bridge.{bridge_take, check_for_messages}

module _ {T : Types} where
  -- The messages that the bridge has a handler for.
  abbrev pub IsForBridge : Message T → Type 0
  IsForBridge (Message.state_delta _) = ⊥
  IsForBridge (Message.clock _ _) = ⊥
  IsForBridge (Message.asset_state_callback _ _) = ⊥
  IsForBridge (Message.asset_receive_callback _ _ _ _) = ⊥
  IsForBridge (Message.asset_request_bytes_callback _ _ _) = ⊥
  IsForBridge _ = Unit

  -- What a message leaves of `running` and of `exit_code`.
  abbrev pub still_running : Message T → Bool → Bool
  still_running (Message.disconnection _ _) r = false
  still_running _ r = r

  abbrev pub exit_after : Message T → ℤ → ℤ
  exit_after (Message.disconnection code _) c = code
  exit_after _ c = c

  unfoldable pub running_after : List (Message T) → Bool → Bool
  running_after [] r = r
  running_after (m ∷ ms) r = running_after ms (still_running m r)

  unfoldable pub code_after : List (Message T) → ℤ → ℤ
  code_after [] c = c
  code_after (m ∷ ms) c = code_after ms (exit_after m c)

  module _ (bc : BridgeClient T) where
    -- What a message makes of the bridge's client.
    abbrev pub act : Message T → T.bridge → T.bridge
    act (Message.connect url identity avatar_desc) b = (bc.connect url identity avatar_desc b).1
    act (Message.interaction i) b = bc.send_interaction i b
    act (Message.intent i) b = bc.set_intent i b
    act (Message.audio track_id pcm) b = bc.send_audio track_id pcm b
    act (Message.video track_id picture) b = bc.send_video track_id picture b
    act (Message.ack rev) b = bc.ack_rev rev b
    act (Message.asset_request asset_id entity_id) b = bc.asset_request asset_id entity_id b
    act (Message.asset_send_data asset_id data' offset len total_size) b =
        bc.asset_send asset_id data' offset len total_size b
    act _ b = b

    unfoldable pub act_each : List (Message T) → T.bridge → T.bridge
    act_each [] b = b
    act_each (m ∷ ms) b = act_each ms (act m b)

    pub record Taken (m : Message T) (rest : List (Message T)) (s t : System T) : Type 0 where
      pub queue : t.proxy_to_bridge.messages ≡ rest
      pub client : t.bridgeclient ≡ act m s.bridgeclient
      pub running : t.running ≡ still_running m s.running
      pub code : t.exit_code ≡ exit_after m s.exit_code

    bridge_take-Taken :
        (m : Message T) (rest : List (Message T)) (s : System T)
        → IsForBridge m
        → (t : System T) × (bridge_take bc m rest s ≡ ok t) × Taken m rest s t
    unfolding bridge_take remove_head
    bridge_take-Taken (Message.connect url identity avatar_desc) rest s h =
        elim (Bool-cases (bc.connect url identity avatar_desc s.bridgeclient).0) [
          | inl e ↦ (
            _,
            refl,
            record {
              queue = ground (arith, e);
              client = ground (arith, e);
              running = ground (arith, e);
              code = ground (arith, e);
            },
          )
          | inr e ↦ (
            _,
            refl,
            record {
              queue = ground (arith, e);
              client = ground (arith, e);
              running = ground (arith, e);
              code = ground (arith, e);
            },
          )
        ]
    bridge_take-Taken (Message.state_delta _) rest s h = absurd h
    bridge_take-Taken (Message.clock _ _) rest s h = absurd h
    bridge_take-Taken (Message.asset_state_callback _ _) rest s h = absurd h
    bridge_take-Taken (Message.asset_receive_callback _ _ _ _) rest s h = absurd h
    bridge_take-Taken (Message.asset_request_bytes_callback _ _ _) rest s h = absurd h
    bridge_take-Taken m rest s h =
        (_, refl, record { queue = refl; client = refl; running = refl; code = refl })

    pub record Drained (q : List (Message T)) (s t : System T) : Type 0 where
      pub queue : t.proxy_to_bridge.messages ≡ []
      pub client : t.bridgeclient ≡ act_each q s.bridgeclient
      pub running : t.running ≡ running_after q s.running
      pub code : t.exit_code ≡ code_after q s.exit_code

    check_for_messages_more :
        (fuel : ℕ) (m : Message T) (q : List (Message T)) (s t : System T)
        → s.proxy_to_bridge.messages ≡ m ∷ q
        → bridge_take bc m q s ≡ ok t
        → check_for_messages bc (suc fuel) s ≡ check_for_messages bc fuel t
    unfolding check_for_messages
    check_for_messages_more fuel m q s t e taken = rw (check_for_messages, e, taken) refl

    check_for_messages_end :
        (fuel : ℕ) (s : System T)
        → s.proxy_to_bridge.messages ≡ []
        → check_for_messages bc (suc fuel) s ≡ ok s
    unfolding check_for_messages
    check_for_messages_end fuel s e = ground (arith, e)

    pub check_for_messages-Drained :
        (fuel : ℕ) (q : List (Message T)) (s : System T)
        → s.proxy_to_bridge.messages ≡ q
        → All IsForBridge q
        → length q < fuel
        → (t : System T) × (check_for_messages bc fuel s ≡ ok t) × Drained q s t
    unfolding act_each running_after code_after
    check_for_messages-Drained zero q s e h lt = absurd (omega arith)
    check_for_messages-Drained (suc fuel) [] s e h lt = (
      s,
      check_for_messages_end fuel s e,
      record { queue = e; client = refl; running = refl; code = refl },
    )
    check_for_messages-Drained (suc fuel) (m ∷ q) s e h lt =
        let (t, taken, f) = bridge_take-Taken m q s h.0 in
        let (u, rest, g) = check_for_messages-Drained fuel q t f.queue h.1 (omega arith) in
        (
          u,
          check_for_messages_more fuel m q s t e taken ∙ rest,
          record {
            queue = g.queue;
            client = g.client ∙ ap (act_each q) f.client;
            running = g.running ∙ ap (running_after q) f.running;
            code = g.code ∙ ap (code_after q) f.code;
          },
        )
