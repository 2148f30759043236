-- ===== src/Proxy/Polled.antt =====
-- A message that the proxy takes out of its queue, src/clientproxy.c, and the messages it is answered
-- with.
use allonet.Common.{◌≡◌, refl, sym, ◌∙◌, subst, List, [], ◌∷◌, ◌++◌, map}
use allonet.Common.All.{All}
use allonet.Proxy.{Types, Message, remove_head, System, Handler, ProxyClient}
use allonet.Proxy.Calls.{message_of, call_each, enqueue_proxy_to_bridge}
use allonet.Proxy.Poll.{
  proxy_take, run, proxy_raw_state_delta, proxy_interaction, proxy_audio, proxy_video,
  proxy_disconnected, proxy_clock, proxy_asset_state, proxy_asset_receive,
  proxy_asset_request_bytes, proxy_message_lookup_table,
}
use allonet.Proxy.Direct.{all-IsForBridge}
use allonet.Proxy.Drain.{IsForBridge}
use allonet.Proxy.Steps.{sends, takes, answers, calls_of}
use allonet.Proxy.Flow.{
  Flows, Flows-insert_tail, Flows-remove_head, Flows-sends, Passes, PassesTo, run-Called,
  call_each-Called, calls_of-IsForBridge,
}

pub All-append :
    {A : Type 0} (P : A → Type 0) (xs ys : List A) → All P xs → All P ys → All P (xs ++ ys)
All-append P [] ys h k = k
All-append P (x ∷ xs) ys h k = (h.0, All-append P xs ys h.1 k)

module _ {T : Types} (pc : ProxyClient T) where
  -- `u` is the state once the message is out of its queue.
  module _ (m : Message T) (rest : List (Message T)) (s u : System T)
      (e : s.bridge_to_proxy.messages ≡ m ∷ rest)
      (same : u.bridge_to_proxy ≡ remove_head s.bridge_to_proxy rest)
      (queue : u.proxy_to_bridge ≡ s.proxy_to_bridge) where
    taken-Passes :
        (t : System T) (ms : List (Message T))
        → All IsForBridge ms
        → Flows (sends ms) u.proxy_to_bridge t.proxy_to_bridge
        → t.bridge_to_proxy ≡ u.bridge_to_proxy
        → Passes (sends ms) (takes m) s t
    taken-Passes t ms h f kept = record {
      to_bridge = subst (λ q. Flows (sends ms) q t.proxy_to_bridge) queue f;
      to_proxy =
          subst (Flows (takes m) s.bridge_to_proxy) (sym (kept ∙ same))
            (Flows-remove_head m rest s.bridge_to_proxy e);
      for_bridge = h;
      for_proxy = tt;
    }

    run-Passes :
        (h : Handler T) → Passes (sends (calls_of pc h u.proxyclient)) (takes m) s (run pc h u)
    run-Passes h =
        let r = run-Called pc h u in
        taken-Passes (run pc h u) (calls_of pc h u.proxyclient)
          (calls_of-IsForBridge pc h u.proxyclient) r.flows r.same

  abbrev without_first : System T → List (Message T) → System T
  without_first s rest = record s { bridge_to_proxy = remove_head s.bridge_to_proxy rest }

  pub proxy_take-PassesTo :
      (m : Message T) (rest : List (Message T)) (s : System T)
      → s.bridge_to_proxy.messages ≡ m ∷ rest
      → PassesTo (sends (answers pc m s)) (takes m) s (proxy_take pc m rest s)
  unfolding proxy_take enqueue_proxy_to_bridge proxy_raw_state_delta proxy_interaction proxy_audio
      proxy_video proxy_disconnected proxy_clock proxy_asset_state proxy_asset_receive
      proxy_asset_request_bytes proxy_message_lookup_table
  proxy_take-PassesTo (Message.connect _ _ _) rest s e = tt
  proxy_take-PassesTo (Message.intent _) rest s e = tt
  proxy_take-PassesTo (Message.ack _) rest s e = tt
  proxy_take-PassesTo (Message.asset_request _ _) rest s e = tt
  proxy_take-PassesTo (Message.asset_send_data _ _ _ _ _) rest s e = tt
  proxy_take-PassesTo (Message.state_delta doc) rest s e =
      let r = pc.parse_statediff doc s.proxyclient in
      let u = record s {
        proxyclient = r.2;
        bridge_to_proxy = remove_head s.bridge_to_proxy rest;
      } in
      let c = call_each-Called pc r.1 u in
      taken-Passes (Message.state_delta doc) rest s u e refl refl
        (enqueue_proxy_to_bridge (Message.ack r.0) (call_each pc r.1 u))
        (map message_of r.1 ++ (Message.ack r.0 ∷ []))
        (All-append IsForBridge (map message_of r.1) (Message.ack r.0 ∷ []) (all-IsForBridge pc r.1)
          (tt, tt))
        (Flows-sends c.flows
          (Flows-insert_tail (Message.ack r.0) (call_each pc r.1 u).proxy_to_bridge))
        c.same
  proxy_take-PassesTo (Message.clock latency delta) rest s e =
      run-Passes (Message.clock latency delta) rest s
        (record s {
          bridge_to_proxy = remove_head s.bridge_to_proxy rest;
          clock_latency = latency;
          clock_delta_to_server = delta;
        })
        e refl refl (pc.clock_callback latency delta)
  proxy_take-PassesTo (Message.interaction i) rest s e =
      run-Passes (Message.interaction i) rest s (without_first s rest) e refl refl
        (pc.interaction_callback i)
  proxy_take-PassesTo (Message.audio track_id pcm) rest s e =
      run-Passes (Message.audio track_id pcm) rest s (without_first s rest) e refl refl
        (pc.audio_callback track_id pcm)
  proxy_take-PassesTo (Message.video track_id picture) rest s e =
      run-Passes (Message.video track_id picture) rest s (without_first s rest) e refl refl
        (pc.video_callback track_id picture)
  proxy_take-PassesTo (Message.disconnection code msg) rest s e =
      run-Passes (Message.disconnection code msg) rest s (without_first s rest) e refl refl
        (pc.disconnected_callback code msg)
  proxy_take-PassesTo (Message.asset_state_callback asset_id state) rest s e =
      run-Passes (Message.asset_state_callback asset_id state) rest s (without_first s rest) e refl
        refl (pc.asset_state_callback asset_id state)
  proxy_take-PassesTo (Message.asset_receive_callback asset_id data' offset total_size) rest s e =
      run-Passes (Message.asset_receive_callback asset_id data' offset total_size) rest s
        (without_first s rest) e refl refl
        (pc.asset_receive_callback asset_id data' offset total_size)
  proxy_take-PassesTo (Message.asset_request_bytes_callback asset_id offset len) rest s e =
      run-Passes (Message.asset_request_bytes_callback asset_id offset len) rest s
        (without_first s rest) e refl refl (pc.asset_request_bytes_callback asset_id offset len)
