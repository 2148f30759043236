-- ===== src/Client/Examples.antt =====
-- A client's turn at concrete values: tests, and the theorems where their hypotheses hold.
use allonet.Common.{ℕ, ◌+◌, ◌*◌, ◌≤◌, ◌≡◌, refl, List, [], ◌∷◌, none, some, Bool, true, arith}
use allonet.Common.{String, Option, get_elem?, zero, suc}
use text.Mathlib.Text.{◌==◌ as str_eq}
use allonet.Common.{if◌then◌else◌}
use allonet.Common.Outcome.{ok, wild}
use allonet.Client.{
  commands, statediffs, assets, Event, received, disconnected, Parts, Polling, poll,
}
use allonet.Client.Turn.{last_statediff, others, with_last, sent, poll-with_last}
use allonet.Client.Rate.{turns, turns_rate}
use allonet.Client.Interact.{
  Values, Listener, Interaction, on_announce, receive_command, alloclient_send_interaction, hand_on,
  receive_command-alloclient_send_interaction,
}
use allonet.Client.Connect.{parse_url, port_of, scheme, after_name}
use allonet.Client.Url.{Url, print, parse_url-print, parse_url_colon_in_path}
use allonet.Common.{◌++◌}

-- Packets are numbers, and a client is what it has done: the clock requests, the intents, and the
-- packets it has handled, the last first.
record Done : Type 0 where
  clocks : ℕ
  intents : ℕ
  handled : List ℕ

abbrev note : ℕ → Done → Done
note n c = record c { handled = n ∷ c.handled }

abbrev noting : Parts ℕ ℕ Done
noting = record {
  parse_json = λ p. some p;
  parse_statediff = note;
  parse_command = λ o c. (true, elim o [ none ↦ c | some p ↦ note p c ]);
  parse_media = note;
  parse_clock = λ o c. c;
  handle_assets = note;
  send_clock_request = λ c. record c { clocks = c.clocks + 1 };
  send_latest_intent = λ c. record c { intents = c.intents + 1 };
  lost = note 0;
}

abbrev idle : Polling Done
idle = record {
  has_peer = true;
  latest_clockreq_ts = 0;
  latest_intent_ts = 0;
  client = record { clocks = 0; intents = 0; handled = [] };
}

abbrev events : List (Event ℕ)
events =
    received statediffs 1 ∷ received commands 2 ∷ received statediffs 3 ∷ received assets 4 ∷ []

-- The first state difference is skipped, and the last one handled after all else.
polls :
    poll noting 60 events idle
    ≡ ok (
      true,
      record idle {
        latest_intent_ts = 60;
        client = record { clocks = 0; intents = 1; handled = 3 ∷ 4 ∷ 2 ∷ [] };
      },
    )
unfolding poll
polls = refl

-- When the connection is lost, a state difference that came before is lost with it.
loses :
    poll noting 10 (received statediffs 1 ∷ disconnected ∷ []) idle
    ≡ ok (true, record idle { client = record { clocks = 0; intents = 0; handled = 0 ∷ [] } })
unfolding poll
loses = refl

poll-with_last_example :
    (b : Bool) × (poll noting 60 events idle
      ≡ ok (
        b,
        record (sent noting 60 idle) {
          client =
              with_last noting
                (last_statediff events none)
                (others noting events (sent noting 60 idle).client);
        },
      ))
unfolding last_statediff
poll-with_last_example =
    poll-with_last noting 60 events idle refl (tt, ((λ c. refl), (tt, (tt, tt)))) (3, refl)

abbrev times : List ℕ
times = 60 ∷ 100 ∷ 1100 ∷ []

turns_rate_example :
    ((turns noting times idle).client.clocks * 1001 + 0 ≤ 0 * 1001 + 1100)
    × ((turns noting times idle).client.intents * 51 + 0 ≤ 0 * 51 + 1100)
turns_rate_example =
    turns_rate noting (λ c. c.clocks) (λ c. c.intents) (λ c. refl) (λ c. refl) (λ c. refl)
      (λ c. refl) 1100 times idle (omega arith, (omega arith, (omega arith, tt))) (omega arith)
      (omega arith)

-- alloplace://ab:99/x
abbrev with_port : Url
with_port = record { host = 97 ∷ 98 ∷ []; port = some (57 ∷ 57 ∷ []); path = some (120 ∷ []) }

splits :
    parse_url (print with_port)
    ≡ ok (some (record { host = some (97 ∷ 98 ∷ []); port = some (57 ∷ 57 ∷ []) }))
unfolding parse_url
splits = refl

numbers : port_of (record { host = none; port = some (32 ∷ 57 ∷ 57 ∷ 120 ∷ []) }) ≡ ok 99
unfolding port_of
numbers = refl

-- The scheme is found anywhere in the URL, x://h:alloplace://, and the host behind the first "://".
not_only_at_the_start :
    parse_url ((120 ∷ after_name) ++ ((104 ∷ 58 ∷ []) ++ scheme))
    ≡ ok (
        some (record {
          host = some (104 ∷ []);
          port = some (97 ∷ 108 ∷ 108 ∷ 111 ∷ 112 ∷ 108 ∷ 97 ∷ 99 ∷ 101 ∷ 58 ∷ []);
        }))
unfolding parse_url
not_only_at_the_start = refl

parse_url-print_example :
    parse_url (print with_port)
    ≡ ok (some (record { host = some (97 ∷ 98 ∷ []); port = some (57 ∷ 57 ∷ []) }))
parse_url-print_example =
    parse_url-print with_port (omega arith) (refl, (refl, tt)) (refl, (refl, tt))
      ((refl, (refl, tt)), omega arith) (omega arith)

parse_url_colon_in_path_example :
    parse_url (scheme ++ ((97 ∷ 98 ∷ []) ++ (47 ∷ ((120 ∷ []) ++ (58 ∷ (121 ∷ [])))))) ≡ wild
parse_url_colon_in_path_example =
    parse_url_colon_in_path (97 ∷ 98 ∷ []) (120 ∷ []) (121 ∷ []) (refl, (refl, tt))
      (refl, (refl, tt)) (refl, tt) (omega arith)

-- Values that are texts and arrays, of which a text parses as an array with one entry.
mutual
  data Value : Type 0 where
    leaf : String → Value
    node : Row → Value

  data Row : Type 0 where
    empty : Row
    add : Value → Row → Row

row : List Value → Row
row [] = empty
row (j ∷ js) = add j (row js)

row_entry : Row → ℕ → Option Value
row_entry empty i = none
row_entry (add j js) zero = some j
row_entry (add j js) (suc i) = row_entry js i

row_entry-row : (js : List Value) (i : ℕ) → row_entry (row js) i ≡ get_elem? js i
unfolding row_entry row
row_entry-row [] i = ground arith
row_entry-row (j ∷ js) zero = refl
row_entry-row (j ∷ js) (suc i) = row_entry-row js i

abbrev entry : Value → ℕ → Option Value
entry (leaf s) i = none
entry (node js) i = row_entry js i

abbrev leaf_text : Value → Option String
leaf_text (leaf s) = some s
leaf_text (node js) = none

-- The command of the interaction below.
abbrev poke_command : Value
poke_command = node (
    row (
      leaf "interaction"
      ∷ leaf "request"
      ∷ leaf "a"
      ∷ leaf "b"
      ∷ leaf "1"
      ∷ node (add (leaf "poke") empty)
      ∷ []))

abbrev values : Values Value
values = record {
  text = leaf;
  array = λ js. node (row js);
  get_text = leaf_text;
  get_number = λ j. 0;
  item = entry;
  print = λ j. elim (entry j 5) [ none ↦ "[\"poke\"]" | some _ ↦ "command" ];
  parse = λ s. some (if str_eq s "command" then poke_command else node (add (leaf "poke") empty));
}

-- A client that keeps the interactions that come in.
abbrev listener : Listener (List Interaction)
listener = record {
  disconnected_callback = none;
  interaction_callback = some (λ i c. i ∷ c);
  set_avatar_id = λ id c. c;
}

abbrev poke : Interaction
poke = record {
  type_ = some "request";
  sender_entity_id = some "a";
  receiver_entity_id = some "b";
  request_id = some "1";
  body = some "[\"poke\"]";
}

-- Once an announcement has been rejected without a callback for that, the call is through NULL.
rejected_unheard :
    on_announce values listener (node (add (leaf "announce") (add (leaf "error") empty))) poke []
    ≡ wild
unfolding on_announce row_entry
rejected_unheard = refl

receive_command-alloclient_send_interaction_example :
    receive_command values listener (alloclient_send_interaction values poke) []
    ≡ ok (true, hand_on values listener poke [])
unfolding row_entry row
receive_command-alloclient_send_interaction_example =
    receive_command-alloclient_send_interaction values listener
      (record { text = λ s. refl; item = row_entry-row }) "request" "a" "b" "1" "[\"poke\"]" "poke"
      (node (add (leaf "poke") empty)) [] refl refl refl refl
