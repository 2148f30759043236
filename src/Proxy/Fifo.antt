-- ===== src/Proxy/Fifo.antt =====
-- What the threads of src/clientproxy.c send each other, over any interleaving of their steps.
use allonet.Common.{◌≡◌, refl, sym, subst, List, [], ◌∷◌, some, none, Bool, true, false, ltb}
use allonet.Common.Outcome.{ok, assertion_failed, assert, ◌>>◌}
use allonet.Proxy.{Types, Message, remove_head, System, Callback, ProxyClient, BridgeClient}
use allonet.Proxy.Callbacks.{callback, bridge_disconnected, enqueue_bridge_to_proxy}
use allonet.Proxy.Bridge.{failed_to_connect, bridge_take}
use allonet.Proxy.Calls.{enqueue_proxy_to_bridge}
use allonet.Proxy.Direct.{message_of-IsForBridge}
use allonet.Proxy.Drain.{IsForBridge}
use allonet.Proxy.Steps.{
  Traffic, silent, sends, takes, and_then, answers, reports, message_for, Step, called, left,
  polled, handled, serviced, called_back, Run, here, onward,
}
use allonet.Proxy.Flow.{
  Flows, Flows-silent, Flows-insert_tail, Flows-remove_head, Flows-and_then, IsForProxy, Passes,
  PassesTo, Flows-call, call-bridge_to_proxy,
}
use allonet.Proxy.Polled.{All-append, proxy_take-PassesTo}

module _ {T : Types} where
  enqueue-Passes :
      (m : Message T) (s : System T)
      → IsForProxy m
      → Passes silent (sends (m ∷ [])) s (enqueue_bridge_to_proxy m s)
  unfolding enqueue_bridge_to_proxy
  enqueue-Passes m s h = record {
    to_bridge = Flows-silent s.proxy_to_bridge;
    to_proxy = Flows-insert_tail m s.bridge_to_proxy;
    for_bridge = tt;
    for_proxy = (h, tt);
  }

  -- `assert(length > 0)`
  nonempty-PassesTo :
      (b : Bool) (m : Message T) (s : System T)
      → IsForProxy m
      → PassesTo silent (sends (m ∷ [])) s (assert b >> ok (enqueue_bridge_to_proxy m s))
  nonempty-PassesTo true m s h = enqueue-Passes m s h
  nonempty-PassesTo false m s h = tt

  silent-PassesTo :
      (b : Bool) (s : System T) → PassesTo silent silent s (assert b >> assertion_failed)
  silent-PassesTo true s = tt
  silent-PassesTo false s = tt

  callback-PassesTo :
      (c : Callback T) (s : System T) → PassesTo silent (sends (message_for c)) s (callback c s)
  unfolding callback
  callback-PassesTo (Callback.on_state_delta none) s = tt
  callback-PassesTo (Callback.on_state_delta (some doc)) s = enqueue-Passes _ s tt
  callback-PassesTo (Callback.on_interaction i) s = enqueue-Passes _ s tt
  callback-PassesTo (Callback.on_audio track_id pcm) s = enqueue-Passes _ s tt
  callback-PassesTo (Callback.on_video track_id pixels wide high) s = enqueue-Passes _ s tt
  callback-PassesTo (Callback.on_disconnected code message) s = enqueue-Passes _ s tt
  callback-PassesTo (Callback.on_clock latency delta) s = enqueue-Passes _ s tt
  callback-PassesTo (Callback.on_asset_state asset_id state) s = enqueue-Passes _ s tt
  callback-PassesTo (Callback.on_asset_receive asset_id none offset len total_size) s =
      silent-PassesTo (ltb 0 len) s
  callback-PassesTo (Callback.on_asset_receive asset_id (some data') offset len total_size) s =
      nonempty-PassesTo (ltb 0 len) _ s tt
  callback-PassesTo (Callback.on_asset_request_bytes asset_id offset len) s = enqueue-Passes _ s tt

  module _ (bc : BridgeClient T) where
    handled-Passes :
        (m : Message T) (rest : List (Message T)) (s t : System T)
        → s.proxy_to_bridge.messages ≡ m ∷ rest
        → t.proxy_to_bridge ≡ remove_head s.proxy_to_bridge rest
        → t.bridge_to_proxy ≡ s.bridge_to_proxy
        → Passes (takes m) (sends []) s t
    handled-Passes m rest s t e same queue = record {
      to_bridge =
          subst (Flows (takes m) s.proxy_to_bridge) (sym same)
            (Flows-remove_head m rest s.proxy_to_bridge e);
      to_proxy =
          subst (Flows silent s.bridge_to_proxy) (sym queue) (Flows-silent s.bridge_to_proxy);
      for_bridge = tt;
      for_proxy = tt;
    }

    Passes-and_then :
        {a b c d : Traffic (Message T)} {s t u : System T}
        → Passes a b s t
        → Passes c d t u
        → Passes (and_then a c) (and_then b d) s u
    Passes-and_then {a} {b} {c} {d} p q = record {
      to_bridge = Flows-and_then p.to_bridge q.to_bridge;
      to_proxy = Flows-and_then p.to_proxy q.to_proxy;
      for_bridge = All-append IsForBridge a.sent c.sent p.for_bridge q.for_bridge;
      for_proxy = All-append IsForProxy b.sent d.sent p.for_proxy q.for_proxy;
    }

    -- `success` of `bridge_alloclient_connect`.
    connect-Passes :
        (success : Bool) (m : Message T) (rest : List (Message T)) (s u : System T)
        → Passes (takes m) silent s u
        → Passes
            (takes m)
            (sends (elim success [
              | true ↦ []
              | false ↦ Message.disconnection failed_to_connect (some "Failed to connect") ∷ []
            ]))
            s
            (elim success [
              | true ↦ u
              | false ↦ bridge_disconnected failed_to_connect (some "Failed to connect") u
            ])
    unfolding bridge_disconnected
    connect-Passes true m rest s u p = p
    connect-Passes false m rest s u p = Passes-and_then p (enqueue-Passes _ u tt)

    bridge_take-PassesTo :
        (m : Message T) (rest : List (Message T)) (s : System T)
        → s.proxy_to_bridge.messages ≡ m ∷ rest
        → PassesTo (takes m) (sends (reports bc m s)) s (bridge_take bc m rest s)
    unfolding bridge_take
    bridge_take-PassesTo (Message.state_delta _) rest s e = tt
    bridge_take-PassesTo (Message.clock _ _) rest s e = tt
    bridge_take-PassesTo (Message.asset_state_callback _ _) rest s e = tt
    bridge_take-PassesTo (Message.asset_receive_callback _ _ _ _) rest s e = tt
    bridge_take-PassesTo (Message.asset_request_bytes_callback _ _ _) rest s e = tt
    bridge_take-PassesTo (Message.connect url identity avatar_desc) rest s e =
        let r = bc.connect url identity avatar_desc s.bridgeclient in
        let m = Message.connect url identity avatar_desc in
        let u = record s {
          bridgeclient = r.1;
          proxy_to_bridge = remove_head s.proxy_to_bridge rest;
        } in
        connect-Passes r.0 m rest s u (handled-Passes m rest s u e refl refl)
    bridge_take-PassesTo m rest s e = handled-Passes m rest s _ e refl refl

    module _ (pc : ProxyClient T) where
      Step-Passes :
          {s t : System T} {a b : Traffic (Message T)} → Step pc bc s a b t → Passes a b s t
      unfolding enqueue_proxy_to_bridge
      Step-Passes (called c s) = record {
        to_bridge = Flows-call pc c s;
        to_proxy =
            subst (Flows silent s.bridge_to_proxy) (sym (call-bridge_to_proxy pc c s))
              (Flows-silent s.bridge_to_proxy);
        for_bridge = (message_of-IsForBridge pc c, tt);
        for_proxy = tt;
      }
      Step-Passes (left reason s) = record {
        to_bridge = Flows-insert_tail (Message.disconnection reason none) s.proxy_to_bridge;
        to_proxy = Flows-silent s.bridge_to_proxy;
        for_bridge = (tt, tt);
        for_proxy = tt;
      }
      Step-Passes (polled m rest s t e done) =
          subst (PassesTo (sends (answers pc m s)) (takes m) s) done
            (proxy_take-PassesTo pc m rest s e)
      Step-Passes (handled m rest s t e done) =
          subst (PassesTo (takes m) (sends (reports bc m s)) s) done
            (bridge_take-PassesTo m rest s e)
      Step-Passes (serviced b s) = record {
        to_bridge = Flows-silent s.proxy_to_bridge;
        to_proxy = Flows-silent s.bridge_to_proxy;
        for_bridge = tt;
        for_proxy = tt;
      }
      Step-Passes (called_back c s t done) =
          subst (PassesTo silent (sends (message_for c)) s) done (callback-PassesTo c s)

      pub Run-Passes :
          {s t : System T} {a b : Traffic (Message T)} → Run pc bc s a b t → Passes a b s t
      Run-Passes (here s) = record {
        to_bridge = Flows-silent s.proxy_to_bridge;
        to_proxy = Flows-silent s.bridge_to_proxy;
        for_bridge = tt;
        for_proxy = tt;
      }
      Run-Passes (onward s t u a b c d first rest) =
          Passes-and_then (Step-Passes first) (Run-Passes rest)
