-- ===== src/Proxy/Told.antt =====
-- `proxy_alloclient_poll`, src/clientproxy.c, to its end.
use allonet.Common.{◌≡◌, List, [], ◌∷◌, some, none, if◌then◌else◌}
use allonet.Common.All.{All}
use allonet.Proxy.{Types, Message, remove_head, System, Call, Handler, ProxyClient}
use allonet.Proxy.Poll.{is_disconnect}

module _ {T : Types} where
  unfoldable pub upto_disconnect : List (Message T) → List (Message T)
  upto_disconnect [] = []
  upto_disconnect (m ∷ ms) =
      let rest = upto_disconnect ms in if is_disconnect m then m ∷ [] else m ∷ rest

  unfoldable pub after_disconnect : List (Message T) → List (Message T)
  after_disconnect [] = []
  after_disconnect (m ∷ ms) = let rest = after_disconnect ms in if is_disconnect m then ms else rest

  module _ (pc : ProxyClient T) where
    -- What calls leave of the proxy's client: only an intent is set there too.
    abbrev set_here : Call T → T.proxy → T.proxy
    set_here (Call.set_intent i) p = pc.set_intent i p
    set_here _ p = p

    pub set_each : List (Call T) → T.proxy → T.proxy
    set_each [] p = p
    set_each (c ∷ cs) p = set_each cs (set_here c p)

    abbrev pub hears : Handler T → T.proxy → T.proxy
    hears none p = p
    hears (some f) p = set_each (f p).0 (f p).1

    -- The program, called back by its client itself.
    abbrev pub told : Message T → T.proxy → T.proxy
    told (Message.state_delta doc) p = let r = pc.parse_statediff doc p in set_each r.1 r.2
    told (Message.interaction i) p = hears (pc.interaction_callback i) p
    told (Message.audio track_id pcm) p = hears (pc.audio_callback track_id pcm) p
    told (Message.video track_id picture) p = hears (pc.video_callback track_id picture) p
    told (Message.disconnection code msg) p = hears (pc.disconnected_callback code msg) p
    told (Message.clock latency delta) p = hears (pc.clock_callback latency delta) p
    told (Message.asset_state_callback asset_id state) p =
        hears (pc.asset_state_callback asset_id state) p
    told (Message.asset_receive_callback asset_id data' offset total_size) p =
        hears (pc.asset_receive_callback asset_id data' offset total_size) p
    told (Message.asset_request_bytes_callback asset_id offset len) p =
        hears (pc.asset_request_bytes_callback asset_id offset len) p
    told _ p = p

    pub told_each : List (Message T) → T.proxy → T.proxy
    told_each [] p = p
    told_each (m ∷ ms) p = told_each ms (told m p)

    record Told (rest : List (Message T)) (p : T.proxy) (t : System T) : Type 0 where
      queue : t.bridge_to_proxy.messages ≡ rest
      client : t.proxyclient ≡ p

    abbrev without_first : System T → List (Message T) → System T
    without_first s rest = record s { bridge_to_proxy = remove_head s.bridge_to_proxy rest }
