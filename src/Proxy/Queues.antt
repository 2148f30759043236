-- ===== src/Proxy/Queues.antt =====
-- What holds of the two queues of src/clientproxy.c however the two threads interleave.
use allonet.Common.{◌≡◌, ◌≢◌, refl, subst, List, [], ◌∷◌, ◌++◌, none, true}
use allonet.Common.Int.{pos}
use allonet.Common.All.{All}
use allonet.Proxy.{Types, Message, empty_queue, System, ProxyClient, BridgeClient}
use allonet.Proxy.Bridge.{bridge_message_lookup_table}
use allonet.Proxy.Poll.{proxy_message_lookup_table}
use allonet.Proxy.Drain.{IsForBridge}
use allonet.Proxy.Steps.{Traffic, Run}
use allonet.Proxy.Flow.{IsCounted, IsForProxy}
use allonet.Proxy.Fifo.{Run-Passes}

-- `clientproxy_create`, with the two clients and the zero that `calloc` leaves in a double.
unfoldable pub created : {T : Types} → T.proxy → T.bridge → T.real → System T
created p b z = record {
  proxyclient = p;
  clock_latency = z;
  clock_delta_to_server = z;
  bridgeclient = b;
  running = true;
  exit_code = pos 0;
  proxy_to_bridge = empty_queue;
  bridge_to_proxy = empty_queue;
}

module _ {T : Types} (pc : ProxyClient T) (bc : BridgeClient T) where
  -- Every message in a queue has a handler in the table of the thread that takes it, and the lengths
  -- that are kept are those of the queues, as far as 32 bits go.
  pub record IsServed (s : System T) : Type 0 where
    pub for_bridge : All (λ m. bridge_message_lookup_table bc m ≢ none) s.proxy_to_bridge.messages
    pub for_proxy : All (λ m. proxy_message_lookup_table pc m ≢ none) s.bridge_to_proxy.messages
    pub to_bridge_len : IsCounted s.proxy_to_bridge
    pub to_proxy_len : IsCounted s.bridge_to_proxy

  bridge_has : (m : Message T) → IsForBridge m → bridge_message_lookup_table bc m ≢ none
  unfolding bridge_message_lookup_table
  bridge_has (Message.state_delta _) h = absurd h
  bridge_has (Message.clock _ _) h = absurd h
  bridge_has (Message.asset_state_callback _ _) h = absurd h
  bridge_has (Message.asset_receive_callback _ _ _ _) h = absurd h
  bridge_has (Message.asset_request_bytes_callback _ _ _) h = absurd h
  bridge_has m h = λ e. cc

  proxy_has : (m : Message T) → IsForProxy m → proxy_message_lookup_table pc m ≢ none
  unfolding proxy_message_lookup_table
  proxy_has (Message.connect _ _ _) h = absurd h
  proxy_has (Message.intent _) h = absurd h
  proxy_has (Message.ack _) h = absurd h
  proxy_has (Message.asset_request _ _) h = absurd h
  proxy_has (Message.asset_send_data _ _ _ _ _) h = absurd h
  proxy_has m h = λ e. cc

  -- Of the entries that were sent, those that wait.
  waiting :
      (P Q : Message T → Type 0)
      → ((m : Message T) → P m → Q m)
      → (xs ys : List (Message T)) → All P (xs ++ ys)
      → All Q ys
  waiting P Q f [] [] h = tt
  waiting P Q f [] (y ∷ ys) h = (f y h.0, waiting P Q f [] ys h.1)
  waiting P Q f (x ∷ xs) ys h = waiting P Q f xs ys h.1

  module _ (p : T.proxy) (b : T.bridge) (z : T.real) (t : System T)
      (to_bridge to_proxy : Traffic (Message T)) where
    -- From the creation of the proxy on, and for as long as it has not been freed, whatever the
    -- program calls, the network brings and either thread handles, in whatever order: the messages that
    -- the bridge has taken, and then those that wait for it, are those that were sent to it, in the
    -- order sent; and so for the messages to the proxy. The program may also disconnect, which sends
    -- the bridge a message; what waits when the proxy is freed is handled no more.
    pub Run-order :
        Run pc bc (created p b z) to_bridge to_proxy t
        → (to_bridge.sent ≡ to_bridge.taken ++ t.proxy_to_bridge.messages)
          × (to_proxy.sent ≡ to_proxy.taken ++ t.bridge_to_proxy.messages)
    unfolding created
    Run-order r = let w = Run-Passes bc pc r in (w.to_bridge.order, w.to_proxy.order)

    -- From the creation of the proxy on, in every state that any interleaving leads to, also once the
    -- program has disconnected: each message that waits, that of the disconnection as well, has a
    -- handler in the table of the thread that it waits for, so that no `assert` on a missing callback
    -- fails, and the lengths kept are those of the queues, modulo 2 ^ 32.
    pub Run-IsServed : Run pc bc (created p b z) to_bridge to_proxy t → IsServed t
    unfolding created
    Run-IsServed r =
        let w = Run-Passes bc pc r in
        record {
          for_bridge =
              waiting IsForBridge (λ m. bridge_message_lookup_table bc m ≢ none) bridge_has
                to_bridge.taken t.proxy_to_bridge.messages
                (subst (All IsForBridge) w.to_bridge.order w.for_bridge);
          for_proxy =
              waiting IsForProxy (λ m. proxy_message_lookup_table pc m ≢ none) proxy_has
                to_proxy.taken t.bridge_to_proxy.messages
                (subst (All IsForProxy) w.to_proxy.order w.for_proxy);
          to_bridge_len = w.to_bridge.count refl;
          to_proxy_len = w.to_proxy.count refl;
        }
