-- ===== src/Proxy/Ending.antt =====
-- `proxy_alloclient_disconnect` and the end of `_bridgethread`, src/clientproxy.c.
use allonet.Common.{
  ℕ, ◌+◌, ◌<◌, ◌≡◌, refl, ap, ◌∙◌, subst, List, [], ◌∷◌, ◌++◌, length, length-append, Option, some,
  none, Bool, true, false, String, arith, ltb,
}
use allonet.Common.Int.{ℤ}
use allonet.Common.All.{All}
use allonet.Common.Cases.{>>=-ok_inv}
use allonet.Common.Outcome.{Outcome, ok, wild, assertion_failed, out_of_fuel, assert, ◌>>◌}
use allonet.Proxy.{Types, Message, insert_tail, System, Callback, ProxyClient, BridgeClient}
use allonet.Proxy.Calls.{enqueue_proxy_to_bridge}
use allonet.Proxy.Callbacks.{callback, callback_each, enqueue_bridge_to_proxy}
use allonet.Proxy.Bridge.{check_for_messages, check_for_network, bridgethread}
use allonet.Proxy.Poll.{proxy_disconnect}
use allonet.Proxy.Drain.{
  IsForBridge, act_each, running_after, code_after, check_for_messages-Drained,
}
use allonet.Proxy.Polled.{All-append}

module _ {T : Types} where
  -- What the network's callbacks do not touch.
  record Kept (s t : System T) : Type 0 where
    queue : t.proxy_to_bridge ≡ s.proxy_to_bridge
    running : t.running ≡ s.running

  abbrev KeptIn : System T → Outcome (System T) → Type 0
  KeptIn s (ok t) = Kept s t
  KeptIn s wild = Unit {0}
  KeptIn s assertion_failed = Unit {0}
  KeptIn s out_of_fuel = Unit {0}

  asserted-KeptIn : (b : Bool) (s t : System T) → Kept s t → KeptIn s (assert b >> ok t)
  asserted-KeptIn true s t k = k
  asserted-KeptIn false s t k = tt

  failed-KeptIn : (b : Bool) (s : System T) → KeptIn s (assert b >> assertion_failed)
  failed-KeptIn true s = tt
  failed-KeptIn false s = tt

  callback-KeptIn : (c : Callback T) (s : System T) → KeptIn s (callback c s)
  unfolding callback enqueue_bridge_to_proxy
  callback-KeptIn (Callback.on_state_delta none) s = tt
  callback-KeptIn (Callback.on_state_delta (some doc)) s = record { queue = refl; running = refl }
  callback-KeptIn (Callback.on_interaction _) s = record { queue = refl; running = refl }
  callback-KeptIn (Callback.on_audio _ _) s = record { queue = refl; running = refl }
  callback-KeptIn (Callback.on_video _ _ _ _) s = record { queue = refl; running = refl }
  callback-KeptIn (Callback.on_disconnected _ _) s = record { queue = refl; running = refl }
  callback-KeptIn (Callback.on_clock _ _) s = record { queue = refl; running = refl }
  callback-KeptIn (Callback.on_asset_state _ _) s = record { queue = refl; running = refl }
  callback-KeptIn (Callback.on_asset_receive _ none _ len _) s = failed-KeptIn (ltb 0 len) s
  callback-KeptIn (Callback.on_asset_receive _ (some _) _ len _) s =
      asserted-KeptIn (ltb 0 len) s _ (record { queue = refl; running = refl })
  callback-KeptIn (Callback.on_asset_request_bytes _ _ _) s = record {
    queue = refl;
    running = refl;
  }

  callback_each-Kept :
      (cs : List (Callback T)) (s t : System T) → callback_each cs s ≡ ok t → Kept s t
  unfolding callback_each
  callback_each-Kept [] s t e = subst (KeptIn s) e (record { queue = refl; running = refl })
  callback_each-Kept (c ∷ cs) s t e =
      let (u, rest, first) = >>=-ok_inv (callback_each cs) (callback c s) e in
      let k = subst (KeptIn s) first (callback-KeptIn c s) in
      let l = callback_each-Kept cs u t rest in
      record { queue = l.queue ∙ k.queue; running = l.running ∙ k.running }

  running_last :
      (q : List (Message T)) (code : ℤ) (msg : Option String) (r : Bool)
      → running_after (q ++ (Message.disconnection code msg ∷ [])) r ≡ false
  unfolding running_after
  running_last [] code msg r = refl
  running_last (m ∷ q) code msg r = running_last q code msg _

  code_last :
      (q : List (Message T)) (code c : ℤ) (msg : Option String)
      → code_after (q ++ (Message.disconnection code msg ∷ [])) c ≡ code
  unfolding code_after
  code_last [] code c msg = refl
  code_last (m ∷ q) code c msg = code_last q code _ msg

  act_each-last :
      (bc : BridgeClient T) (q : List (Message T)) (code : ℤ) (msg : Option String) (b : T.bridge)
      → act_each bc (q ++ (Message.disconnection code msg ∷ [])) b ≡ act_each bc q b
  unfolding act_each
  act_each-last bc [] code msg b = refl
  act_each-last bc (m ∷ q) code msg b = act_each-last bc q code msg _

  module _ (bc : BridgeClient T) where
    bridgethread_two :
        (fuel : ℕ) (s u t : System T)
        → s.running ≡ true
        → check_for_network bc s ≡ ok u
        → check_for_messages bc fuel u ≡ ok t
        → t.running ≡ false
        → bridgethread bc 2 fuel s
          ≡ ok (record t { bridgeclient = bc.disconnect t.exit_code t.bridgeclient })
    unfolding bridgethread
    bridgethread_two fuel s u t on net drained off = ground (arith, on, net, drained, off)

  module _ (pc : ProxyClient T) (bc : BridgeClient T) where
    proxy_disconnect-bridgethread :
        (fuel : ℕ) (reason : ℤ) (s t : System T)
        → bridgethread bc 2 fuel (enqueue_proxy_to_bridge (Message.disconnection reason none) s)
          ≡ ok t
        → proxy_disconnect pc false bc 2 fuel reason s
          ≡ ok (record t { proxyclient = pc.disconnect reason t.proxyclient })
    unfolding proxy_disconnect
    proxy_disconnect-bridgethread fuel reason s t e = rw (e) refl

    -- The program disconnects while the network's thread runs, not in a callback of the poll, so that
    -- its thread holds no mutex, and each message that waits for the bridge has a handler there. If
    -- what the network calls back in this round fails no `assert`, then the thread ends after the
    -- round, so that `thrd_join` returns: all messages that had been sent before have been handled,
    -- in order, and the bridge's client disconnects with the reason that was given.
    pub proxy_disconnect_ends :
        (fuel : ℕ) (reason : ℤ) (s u : System T)
        → s.running ≡ true
        → All IsForBridge s.proxy_to_bridge.messages
        → check_for_network bc (enqueue_proxy_to_bridge (Message.disconnection reason none) s)
          ≡ ok u
        → length s.proxy_to_bridge.messages + 1 < fuel
        → (t : System T) × (proxy_disconnect pc false bc 2 fuel reason s ≡ ok t)
          × (t.running ≡ false)
          × (t.proxy_to_bridge.messages ≡ [])
          × (t.bridgeclient
              ≡ bc.disconnect reason (act_each bc s.proxy_to_bridge.messages u.bridgeclient))
    unfolding enqueue_proxy_to_bridge insert_tail check_for_network
    proxy_disconnect_ends fuel reason s u on h net lt =
        let q = s.proxy_to_bridge.messages in
        let last : List (Message T) = Message.disconnection reason none ∷ [] in
        let k = callback_each-Kept (bc.poll s.bridgeclient).0 _ u net in
        let (t, drained, d) =
          check_for_messages-Drained bc fuel (q ++ last) u (ap (λ l. l.messages) k.queue)
            (All-append IsForBridge q last h (tt, tt)) (omega (arith, lt, length-append q last)) in
        let off : t.running ≡ false = d.running ∙ running_last q reason none _ in
        let code : t.exit_code ≡ reason = d.code ∙ code_last q reason _ none in
        let client : t.bridgeclient ≡ act_each bc q u.bridgeclient =
          d.client ∙ act_each-last bc q reason none u.bridgeclient in
        (
          _,
          proxy_disconnect-bridgethread fuel reason s _
              (bridgethread_two bc fuel _ u t on net drained off),
          off,
          d.queue,
          ap (λ c. bc.disconnect c t.bridgeclient) code ∙ ap (bc.disconnect reason) client,
        )
