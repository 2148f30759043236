-- ===== src/Proxy/Direct.antt =====
-- Calls of the program that reach the bridge's client through the proxy, src/clientproxy.c.
use mathlib.Core.List.{append-nil, append_assoc}
use allonet.Common.{
  ℕ, ◌<◌, ◌≡◌, refl, sym, ap, ◌∙◌, List, [], ◌∷◌, ◌++◌, map, length, length-map, arith,
}
use allonet.Common.All.{All}
use allonet.Common.Outcome.{ok}
use allonet.Proxy.{Types, insert_tail, System, Call, ProxyClient, BridgeClient}
use allonet.Proxy.Calls.{message_of, call, call_each}
use allonet.Proxy.Bridge.{check_for_messages}
use allonet.Proxy.Drain.{IsForBridge, act, act_each, check_for_messages-Drained}

module _ {T : Types} where
  module _ (bc : BridgeClient T) where
    -- The program calls the client itself.
    abbrev pub direct : Call T → T.bridge → T.bridge
    direct (Call.connect url identity avatar_desc) b = (bc.connect url identity avatar_desc b).1
    direct (Call.send_interaction i) b = bc.send_interaction i b
    direct (Call.set_intent i) b = bc.set_intent i b
    direct (Call.send_audio track_id pcm) b = bc.send_audio track_id pcm b
    direct (Call.send_video track_id picture) b = bc.send_video track_id picture b
    direct (Call.asset_request asset_id entity_id) b = bc.asset_request asset_id entity_id b
    direct (Call.asset_send asset_id data' offset len total_size) b =
        bc.asset_send asset_id data' offset len total_size b

    pub direct_each : List (Call T) → T.bridge → T.bridge
    direct_each [] b = b
    direct_each (c ∷ cs) b = direct_each cs (direct c b)

  module _ (pc : ProxyClient T) where
    record Queued (cs : List (Call T)) (s t : System T) : Type 0 where
      queue : t.proxy_to_bridge.messages ≡ s.proxy_to_bridge.messages ++ map message_of cs
      client : t.bridgeclient ≡ s.bridgeclient

    call-bridgeclient : (c : Call T) (s : System T) → (call pc c s).bridgeclient ≡ s.bridgeclient
    unfolding call
    call-bridgeclient (Call.connect _ _ _) s = refl
    call-bridgeclient (Call.send_interaction _) s = refl
    call-bridgeclient (Call.set_intent _) s = refl
    call-bridgeclient (Call.send_audio _ _) s = refl
    call-bridgeclient (Call.send_video _ _) s = refl
    call-bridgeclient (Call.asset_request _ _) s = refl
    call-bridgeclient (Call.asset_send _ _ _ _ _) s = refl

    pub call-insert_tail :
        (c : Call T) (s : System T)
        → (call pc c s).proxy_to_bridge ≡ insert_tail s.proxy_to_bridge (message_of c)
    unfolding call message_of
    call-insert_tail (Call.connect _ _ _) s = refl
    call-insert_tail (Call.send_interaction _) s = refl
    call-insert_tail (Call.set_intent _) s = refl
    call-insert_tail (Call.send_audio _ _) s = refl
    call-insert_tail (Call.send_video _ _) s = refl
    call-insert_tail (Call.asset_request _ _) s = refl
    call-insert_tail (Call.asset_send _ _ _ _ _) s = refl

    call-messages :
        (c : Call T) (s : System T)
        → (call pc c s).proxy_to_bridge.messages ≡ s.proxy_to_bridge.messages ++ (message_of c ∷ [])
    unfolding insert_tail
    call-messages c s = ap (λ q. q.messages) (call-insert_tail c s)

    call_each-Queued : (cs : List (Call T)) (s : System T) → Queued cs s (call_each pc cs s)
    unfolding call_each
    call_each-Queued [] s = record { queue = sym (append-nil _); client = refl }
    call_each-Queued (c ∷ cs) s =
        let r = call_each-Queued cs (call pc c s) in
        record {
          queue =
              r.queue
              ∙ ap (λ q. q ++ map message_of cs) (call-messages c s)
              ∙ append_assoc s.proxy_to_bridge.messages (message_of c ∷ []) (map message_of cs);
          client = r.client ∙ call-bridgeclient c s;
        }

    pub message_of-IsForBridge : (c : Call T) → IsForBridge (message_of {T = T} c)
    unfolding message_of
    message_of-IsForBridge (Call.connect _ _ _) = tt
    message_of-IsForBridge (Call.send_interaction _) = tt
    message_of-IsForBridge (Call.set_intent _) = tt
    message_of-IsForBridge (Call.send_audio _ _) = tt
    message_of-IsForBridge (Call.send_video _ _) = tt
    message_of-IsForBridge (Call.asset_request _ _) = tt
    message_of-IsForBridge (Call.asset_send _ _ _ _ _) = tt

    pub all-IsForBridge : (cs : List (Call T)) → All IsForBridge (map (message_of {T = T}) cs)
    all-IsForBridge [] = tt
    all-IsForBridge (c ∷ cs) = (message_of-IsForBridge c, all-IsForBridge cs)

    module _ (bc : BridgeClient T) where
      act-message_of : (c : Call T) (b : T.bridge) → act bc (message_of c) b ≡ direct bc c b
      unfolding message_of
      act-message_of (Call.connect _ _ _) b = refl
      act-message_of (Call.send_interaction _) b = refl
      act-message_of (Call.set_intent _) b = refl
      act-message_of (Call.send_audio _ _) b = refl
      act-message_of (Call.send_video _ _) b = refl
      act-message_of (Call.asset_request _ _) b = refl
      act-message_of (Call.asset_send _ _ _ _ _) b = refl

      act_each-direct_each :
          (cs : List (Call T)) (b : T.bridge)
          → act_each bc (map message_of cs) b ≡ direct_each bc cs b
      unfolding act_each direct_each
      act_each-direct_each [] b = refl
      act_each-direct_each (c ∷ cs) b =
          ap (act_each bc (map message_of cs)) (act-message_of c b)
          ∙ act_each-direct_each cs (direct bc c b)

      -- The program calls the proxy, any number of times, when no message waits for the bridge; then
      -- the bridge checks for messages. It ends after as many rounds as there were calls and one
      -- more, no message is left, and its client is as if the program had called it directly, the
      -- same calls in the same order.
      pub check_for_messages-direct_each :
          (fuel : ℕ) (cs : List (Call T)) (s : System T)
          → s.proxy_to_bridge.messages ≡ []
          → length cs < fuel
          → (t : System T) × (check_for_messages bc fuel (call_each pc cs s) ≡ ok t)
            × (t.bridgeclient ≡ direct_each bc cs s.bridgeclient)
            × (t.proxy_to_bridge.messages ≡ [])
      check_for_messages-direct_each fuel cs s e lt =
          let q = call_each-Queued cs s in
          let (t, done, d) =
            check_for_messages-Drained bc fuel (map message_of cs) (call_each pc cs s)
              (q.queue ∙ ap (λ l. l ++ map message_of cs) e) (all-IsForBridge cs)
              (omega (arith, length-map cs (message_of {T = T}))) in
          (
            t,
            done,
            d.client
                ∙ ap (act_each bc (map message_of cs)) q.client
                ∙ act_each-direct_each cs s.bridgeclient,
            d.queue,
          )
