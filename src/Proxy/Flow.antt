-- ===== src/Proxy/Flow.antt =====
-- The queues of src/clientproxy.c under the steps of the two threads.
use mathlib.Core.List.{append-nil, append_assoc}
use allonet.Common.{
  ◌%◌, ◌^◌, ◌≡◌, refl, sym, ap, ◌∙◌, subst, List, [], ◌∷◌, ◌++◌, map, length, length-append, some,
  none, arith,
}
use allonet.Common.All.{All}
use allonet.Common.Outcome.{Outcome, ok, wild, assertion_failed, out_of_fuel}
use allonet.Proxy.{
  Types, Message, Queue, insert_tail, remove_head, System, Call, Handler, ProxyClient,
}
use allonet.Proxy.Calls.{message_of, call, call_each}
use allonet.Proxy.Poll.{run}
use allonet.Proxy.Direct.{call-insert_tail, all-IsForBridge}
use allonet.Proxy.Drain.{IsForBridge}
use allonet.Proxy.Steps.{Traffic, silent, sends, takes, and_then, calls_of}

abbrev pub IsCounted : {M : Type 0} → Queue M → Type 0
IsCounted q = q.len ≡ length q.messages % 2 ^ 32

-- What was there and what is sent is, in order, what is taken and what is there then.
pub record Flows {M : Type 0} (a : Traffic M) (q r : Queue M) : Type 0 where
  pub order : q.messages ++ a.sent ≡ a.taken ++ r.messages
  pub count : IsCounted q → IsCounted r

module _ {M : Type 0} where
  pub Flows-silent : (q : Queue M) → Flows silent q q
  Flows-silent q = record { order = append-nil q.messages; count = λ h. h }

  pub Flows-insert_tail : (m : M) (q : Queue M) → Flows (sends (m ∷ [])) q (insert_tail q m)
  unfolding insert_tail
  Flows-insert_tail m q = record {
    order = refl;
    count = λ h. omega (arith, h, length-append q.messages (m ∷ []));
  }

  pub Flows-remove_head :
      (m : M) (rest : List M) (q : Queue M)
      → q.messages ≡ m ∷ rest
      → Flows (takes m) q (remove_head q rest)
  unfolding remove_head
  Flows-remove_head m rest q e = record {
    order = append-nil q.messages ∙ e;
    count = λ h. omega (arith, h, ap length e);
  }

  pub Flows-and_then :
      {a b : Traffic M} {q r u : Queue M} → Flows a q r → Flows b r u → Flows (and_then a b) q u
  Flows-and_then {a} {b} {q} {r} {u} f g = record {
    order =
        sym (append_assoc q.messages a.sent b.sent)
        ∙ ap (λ l. l ++ b.sent) f.order
        ∙ append_assoc a.taken r.messages b.sent
        ∙ ap (λ l. a.taken ++ l) g.order
        ∙ sym (append_assoc a.taken b.taken u.messages);
    count = λ h. g.count (f.count h);
  }

  pub Flows-sends :
      {ms ns : List M} {q r u : Queue M}
      → Flows (sends ms) q r
      → Flows (sends ns) r u
      → Flows (sends (ms ++ ns)) q u
  Flows-sends f g = Flows-and_then f g

module _ {T : Types} where
  abbrev pub IsForProxy : Message T → Type 0
  IsForProxy (Message.connect _ _ _) = ⊥
  IsForProxy (Message.intent _) = ⊥
  IsForProxy (Message.ack _) = ⊥
  IsForProxy (Message.asset_request _ _) = ⊥
  IsForProxy (Message.asset_send_data _ _ _ _ _) = ⊥
  IsForProxy _ = Unit

  pub record Passes (a b : Traffic (Message T)) (s t : System T) : Type 0 where
    pub to_bridge : Flows a s.proxy_to_bridge t.proxy_to_bridge
    pub to_proxy : Flows b s.bridge_to_proxy t.bridge_to_proxy
    pub for_bridge : All IsForBridge a.sent
    pub for_proxy : All IsForProxy b.sent

  -- If the outcome is a state, it is one that the traffic leads to.
  abbrev pub PassesTo :
      Traffic (Message T) → Traffic (Message T) → System T → Outcome (System T) → Type 0
  PassesTo a b s (ok t) = Passes a b s t
  PassesTo a b s wild = Unit {0}
  PassesTo a b s assertion_failed = Unit {0}
  PassesTo a b s out_of_fuel = Unit {0}

  module _ (pc : ProxyClient T) where
    pub call-bridge_to_proxy :
        (c : Call T) (s : System T) → (call pc c s).bridge_to_proxy ≡ s.bridge_to_proxy
    unfolding call
    call-bridge_to_proxy (Call.connect _ _ _) s = refl
    call-bridge_to_proxy (Call.send_interaction _) s = refl
    call-bridge_to_proxy (Call.set_intent _) s = refl
    call-bridge_to_proxy (Call.send_audio _ _) s = refl
    call-bridge_to_proxy (Call.send_video _ _) s = refl
    call-bridge_to_proxy (Call.asset_request _ _) s = refl
    call-bridge_to_proxy (Call.asset_send _ _ _ _ _) s = refl

    pub Flows-call :
        (c : Call T) (s : System T)
        → Flows (sends (message_of c ∷ [])) s.proxy_to_bridge (call pc c s).proxy_to_bridge
    Flows-call c s =
        subst (Flows _ s.proxy_to_bridge) (sym (call-insert_tail pc c s))
          (Flows-insert_tail (message_of c) s.proxy_to_bridge)

    pub record Called (ms : List (Message T)) (s t : System T) : Type 0 where
      pub flows : Flows (sends ms) s.proxy_to_bridge t.proxy_to_bridge
      pub same : t.bridge_to_proxy ≡ s.bridge_to_proxy

    pub call_each-Called :
        (cs : List (Call T)) (s : System T) → Called (map message_of cs) s (call_each pc cs s)
    unfolding call_each
    call_each-Called [] s = record { flows = Flows-silent s.proxy_to_bridge; same = refl }
    call_each-Called (c ∷ cs) s =
        let r = call_each-Called cs (call pc c s) in
        record {
          flows = Flows-sends (Flows-call c s) r.flows;
          same = r.same ∙ call-bridge_to_proxy c s;
        }

    pub run-Called :
        (h : Handler T) (s : System T) → Called (calls_of pc h s.proxyclient) s (run pc h s)
    unfolding run
    run-Called none s = record { flows = Flows-silent s.proxy_to_bridge; same = refl }
    run-Called (some f) s =
        let r =
          call_each-Called (f s.proxyclient).0 (record s { proxyclient = (f s.proxyclient).1 }) in
        record { flows = r.flows; same = r.same }

    pub calls_of-IsForBridge : (h : Handler T) (p : T.proxy) → All IsForBridge (calls_of pc h p)
    calls_of-IsForBridge none p = tt
    calls_of-IsForBridge (some f) p = all-IsForBridge pc (f p).0
