-- ===== src/Transfer/Download.antt =====
-- A whole download, chunk by chunk: `asset_request` and `asset_handle`, src/asset.c.
use mathlib.Core.List.{append_assoc, append-nil}
use allonet.Common.{
  ℕ, zero, suc, ◌+◌, ◌-◌, ◌*◌, ◌<◌, ◌≤◌, ◌≡◌, refl, sym, ap, subst, ◌∙◌, List, [], ◌∷◌, ◌++◌, true,
  false, String, arith, length, drop, min, ltb, length-take, length-drop, length-append,
  take-append-drop, Bool-cases, inl, inr,
}
use allonet.Common.Size.{int_limit}
use allonet.Common.Outcome.{ok}
use allonet.Server.{Storage, Peer, request, Server, chunk_size}
use allonet.Client.Assets.{
  AssetClient, Callbacks, now_available, send, alloclient_asset_request, report_state,
}
use allonet.Transfer.{Pair, exchange}
use allonet.Transfer.Round.{next_bytes, go_on}
use allonet.Transfer.Fetch.{Source, Sink, is_empty, asking, fetch, go_on_more}

module _ {S T P : Type 0} (io : Storage S) (store : Storage T) (calls : Callbacks T P) (garbage : ℕ)
    (p : Peer) (id : String) (data' : List ℕ) (small : length data' < int_limit)
    (source : Source io id data') (sink : Sink store calls id (length data'))
    (quiet : (c : AssetClient T P)
      → c.sent ≡ []
      → (report_state store calls id now_available c).sent ≡ []) where
  -- How the exchange ends.
  record Downloaded (fuel : ℕ) (s : Server S) (c : AssetClient T P) (from : Pair S T P)
      : Type 0 where
    server_store : S
    program : P
    ends :
        exchange io store calls garbage p fuel from
        ≡ ok (record {
          server = record s { store = server_store; sent = [] };
          client =
              report_state store calls id now_available (record c { program = program; sent = [] });
        })
    serves : source.Serves server_store
    holds : sink.Holds data' program

  exchange_done :
      (fuel : ℕ) (s : Server S) (c : AssetClient T P)
      → s.sent ≡ []
      → c.sent ≡ []
      → exchange io store calls garbage p (suc fuel) (record { server = s; client = c })
        ≡ ok (record { server = s; client = c })
  unfolding exchange
  exchange_done fuel s c a b = rw (a, b) refl

  go_on_done :
      (offset len : ℕ) (c : AssetClient T P)
      → length data' ≤ offset + len
      → go_on io store calls garbage p id offset len (length data') c
        ≡ report_state store calls id now_available c
  go_on_done offset len c all =
      let done : ltb (offset + len) (length data') ≡ false = ground arith in rw (done) refl

  -- What the client has once it has the next bytes, and what is left behind them.
  parts_next :
      (front left : List ℕ)
      → data' ≡ front ++ left
      → data' ≡ (front ++ next_bytes left) ++ drop (min chunk_size (length left)) left
  parts_next front left parts =
      let m = min chunk_size (length left) in
      parts
      ∙ ap (λ l. front ++ l) (sym (take-append-drop m left))
      ∙ sym (append_assoc front (next_bytes left) (drop m left))

  length-next_bytes : (left : List ℕ) → length (next_bytes left) ≡ min chunk_size (length left)
  length-next_bytes left = omega (arith, length-take (min chunk_size (length left)) left)

  -- What the client asks for when it has `front`, of what is left.
  record Asked (k : ℕ) (front left : List ℕ) (len : ℕ) (s : Server S) (c : AssetClient T P)
      : Type 0 where
    parts : data' ≡ front ++ left
    more : 0 < length left
    rounds : length left ≤ k * chunk_size
    pos : 0 < len
    enough : min len (length left) ≡ min chunk_size (length left)
    none_sent : s.sent ≡ []
    peer : c.has_peer ≡ true
    serving : source.Serves s.store
    holding : sink.Holds front c.program

  fetch_last :
      (fuel k : ℕ) (front left : List ℕ) (len : ℕ) (s : Server S) (c : AssetClient T P)
      → Asked k front left len s c
      → length left ≤ chunk_size
      → Downloaded (suc (suc (suc fuel))) s c (asking id front len s c)
  fetch_last fuel k front left len s c a short =
      let f =
        fetch io store calls garbage p id data' small source sink (suc fuel) front left len s c
          a.parts a.more a.pos a.enough a.none_sent a.serving a.holding in
      let part = next_bytes left in
      let m = min chunk_size (length left) in
      let total : length data' ≡ length front + length left =
        ap length a.parts ∙ length-append front left in
      let none_left : drop m left ≡ [] =
        is_empty (drop m left) (omega (arith, length-drop m left)) in
      let whole : data' ≡ front ++ part =
        parts_next front left a.parts
        ∙ ap (λ l. (front ++ part) ++ l) none_left
        ∙ append-nil (front ++ part) in
      let c' : AssetClient T P = record c { program = f.program; sent = [] } in
      let s' : Server S = record s { store = f.server_store; sent = [] } in
      record {
        server_store = f.server_store;
        program = f.program;
        ends =
            f.goes
            ∙ ap
                (λ d.
                  exchange io store calls garbage p (suc fuel) (record { server = s'; client = d }))
                (go_on_done (length front) (length part) c' (omega (arith, length-next_bytes left)))
            ∙ exchange_done fuel s' (report_state store calls id now_available c') refl
                (quiet c' refl);
        serves = f.serves;
        holds = subst (λ l. sink.Holds l f.program) (sym whole) f.holds;
      }

  ask_next :
      (k : ℕ) (front left : List ℕ) (len : ℕ) (s : Server S) (c : AssetClient T P) (st : S) (cp : P)
      → Asked (suc k) front left len s c
      → chunk_size < length left
      → source.Serves st
      → sink.Holds (front ++ next_bytes left) cp
      → Asked k
          (front ++ next_bytes left)
          (drop (min chunk_size (length left)) left)
          (min chunk_size (length data' - length (front ++ next_bytes left)))
          (record s { store = st; sent = [] })
          (record c { program = cp; sent = [] })
  ask_next k front left len s c st cp a long serving holding =
      let m = min chunk_size (length left) in
      let total : length data' ≡ length front + length left =
        ap length a.parts ∙ length-append front left in
      let here : length (front ++ next_bytes left) ≡ length front + length (next_bytes left) =
        length-append front (next_bytes left) in
      let tail : length (drop m left) ≡ length left - m = length-drop m left in
      record {
        parts = parts_next front left a.parts;
        more = omega (arith, tail);
        rounds = omega (arith, tail, a.rounds);
        pos = omega (arith, here, length-next_bytes left);
        enough = omega (arith, here, tail, length-next_bytes left);
        none_sent = refl;
        peer = a.peer;
        serving = serving;
        holding = holding;
      }

  fetch_more :
      (fuel k : ℕ) (front left : List ℕ) (len : ℕ) (s : Server S) (c : AssetClient T P)
      → Asked (suc k) front left len s c
      → chunk_size < length left
      → ((len' : ℕ) (s' : Server S) (c' : AssetClient T P)
          → Asked k (front ++ next_bytes left) (drop (min chunk_size (length left)) left) len' s' c'
          → Downloaded fuel s' c' (asking id (front ++ next_bytes left) len' s' c'))
      → Downloaded (suc (suc fuel)) s c (asking id front len s c)
  fetch_more fuel k front left len s c a long go =
      let f =
        fetch io store calls garbage p id data' small source sink fuel front left len s c a.parts
          a.more a.pos a.enough a.none_sent a.serving a.holding in
      let part = next_bytes left in
      let total : length data' ≡ length front + length left =
        ap length a.parts ∙ length-append front left in
      let c' : AssetClient T P = record c { program = f.program; sent = [] } in
      let s' : Server S = record s { store = f.server_store; sent = [] } in
      let next = ask_next k front left len s c f.server_store f.program a long f.serves f.holds in
      let d = go (min chunk_size (length data' - length (front ++ part))) s' c' next in
      record {
        server_store = d.server_store;
        program = d.program;
        ends =
            f.goes
            ∙ ap (λ e. exchange io store calls garbage p fuel (record { server = s'; client = e }))
                (go_on_more io store calls garbage p id data' small source sink front part c' a.peer
                  (omega (arith, length-next_bytes left)))
            ∙ d.ends;
        serves = d.serves;
        holds = d.holds;
      }

  download_left :
      (k : ℕ) (front left : List ℕ) (len : ℕ) (s : Server S) (c : AssetClient T P)
      → Asked k front left len s c
      → Downloaded (2 * k + 1) s c (asking id front len s c)
  download_left zero front left len s c a = absurd (omega (arith, a.rounds, a.more))
  download_left (suc k) front left len s c a = elim (Bool-cases (ltb chunk_size (length left))) [
    | inr short ↦
        let fuel : 2 * suc k + 1 ≡ suc (suc (suc (2 * k))) = omega arith in
        rw (fuel) (fetch_last (2 * k) (suc k) front left len s c a (ground arith))
    | inl long ↦
        let fuel : 2 * suc k + 1 ≡ suc (suc (2 * k + 1)) = omega arith in
        let is_long : chunk_size < length left = ground arith in
        rw (fuel) (
          fetch_more (2 * k + 1) k front left len s c a is_long
            (download_left k (front ++ next_bytes left) (drop (min chunk_size (length left)) left)))
  ]

  asks :
      (c : AssetClient T P)
      → c.has_peer ≡ true
      → c.sent ≡ []
      → alloclient_asset_request id c ≡ record c { sent = request id 0 chunk_size ∷ [] }
  unfolding alloclient_asset_request send
  asks c peer none_asked = rw (peer, none_asked) refl

  -- The whole, from the request on.
  pub download :
      (k : ℕ) (s : Server S) (c : AssetClient T P)
      → 0 < length data'
      → length data' ≤ k * chunk_size
      → s.sent ≡ []
      → c.sent ≡ []
      → c.has_peer ≡ true
      → source.Serves s.store
      → sink.Holds [] c.program
      → (st : S) × (cp : P) × (exchange io store calls garbage p
            (2 * k + 1)
            (record { server = s; client = alloclient_asset_request id c })
          ≡ ok (record {
            server = record s { store = st; sent = [] };
            client =
                report_state store calls id now_available (record c { program = cp; sent = [] });
          }))
        × source.Serves st
        × sink.Holds data' cp
  download k s c more rounds none_sent none_asked peer serving holding =
      let d = download_left k [] data' chunk_size s c (record {
        parts = refl;
        more = more;
        rounds = rounds;
        pos = omega arith;
        enough = omega arith;
        none_sent = none_sent;
        peer = peer;
        serving = serving;
        holding = holding;
      }) in
      (
        d.server_store,
        d.program,
        ap (λ e. exchange io store calls garbage p (2 * k + 1) (record { server = s; client = e }))
              (asks c peer none_asked)
            ∙ d.ends,
        d.serves,
        d.holds,
      )
