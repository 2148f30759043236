-- ===== src/Packet/Examples.antt =====
-- Packets at concrete values: tests, and the theorems where their hypotheses hold.
use text.Mathlib.Text.{◌==◌ as str_eq}
use allonet.Common.{
  ℕ, ◌-◌, ◌<◌, ◌≡◌, refl, List, [], ◌∷◌, Option, none, some, String, arith, if◌then◌else◌, min, map,
  length,
}
use allonet.Common.Size.{int_limit}
use allonet.Common.Outcome.{ok}
use allonet.AssetStore.Access.{no_such_asset, written}
use allonet.Server.{Storage, Server}
use allonet.Server.Handle.{connect, request_bytes, handle_data, request_missing}
use allonet.Server.Invariant.{IsServer}
use allonet.Server.Reach.{listening, Reaches-IsServer, here, onward, connected}
use allonet.Packet.{JsonText, build_packet, read_header}
use allonet.Packet.Header.{JsonTree, request_header, data_header, read_request_header}
use allonet.Packet.Receive.{
  mid_data, receive, on_message, on_request, receive-data, receive-IsServer,
}

-- A JSON of strings, numbers, arrays of numbers, and objects, whose items have keys.
mutual
  data Value : Type 0 where
    str : String → Value
    num : ℕ → Value
    nums : List ℕ → Value
    obj : Fields → Value

  data Fields : Type 0 where
    no_more : Fields
    entry : String → Value → Fields → Fields

record Item : Type 0 where
  name : String
  value : Value

abbrev item : Value → Item
item v = record { name = ""; value = v }

abbrev look_up : String → Fields → Option Item
look_up k no_more = none
look_up k (entry j v fs) =
    if str_eq j k then some (record { name = k; value = v }) else look_up k fs

abbrev fields : List (String × Item) → Fields
fields [] = no_more
fields ((k, j) ∷ fs) = entry k j.value (fields fs)

abbrev members : Value → Fields
members (obj fs) = fs
members _ = no_more

abbrev text_of : Value → Option String
text_of (str s) = some s
text_of _ = none

abbrev items_of : Value → Option (List Item)
items_of (nums ns) = some (map (λ n. item (num n)) ns)
items_of _ = none

abbrev number_of : Value → Option ℕ
number_of (num n) = some (min n (int_limit - 1))
number_of _ = none

abbrev get : Option Item → String → Option Item
get none k = none
get (some j) k = look_up k (members j.value)

number_small : (n : ℕ) → n < int_limit → number_of (num n) ≡ some n
number_small n h = ground arith

abbrev tree : JsonTree Item
tree = record {
  get_item = get;
  key = λ j. j.name;
  text = λ j. text_of j.value;
  items = λ j. items_of j.value;
  number = λ j. number_of j.value;
  create_string = λ s. item (str s);
  create_number = λ n. item (num n);
  create_int_array = λ ns. item (nums ns);
  create_object = λ fs. item (obj (fields fs));
  named = λ k j. record { name = k; value = j.value };
  key_named = λ k j. refl;
  text_named = λ k j. refl;
  items_named = λ k j. refl;
  number_named = λ k j. refl;
  text_create = λ s. refl;
  items_create = λ ns. refl;
  number_create = number_small;
  get_id = λ j fs. refl;
  get_range = λ i j fs. refl;
  get_total_length = λ i r j fs. refl;
}

-- A printer that has one value to print.
abbrev text_for : Item → JsonText Item
text_for j = record { print = λ i. 123 ∷ 125 ∷ []; parse = λ l. (some j, 2) }

abbrev nothing : Storage (Unit {0})
nothing = record {
  read = λ id offset len s. ok (tt, no_such_asset);
  write = λ id offset data' total s. ok (tt, written (length data'));
}

abbrev one : Server (Unit {0})
one = connect 1 (listening tt)

abbrev asks : Item
asks = request_header tree "a" 0 9

abbrev brings : Item
brings = data_header tree "a" 3 2 7

packet : build_packet (text_for asks) 515 asks (7 ∷ []) ≡ 2 ∷ 3 ∷ 0 ∷ 2 ∷ 123 ∷ 125 ∷ 7 ∷ []
unfolding build_packet
packet = refl

receive-data_example :
    receive
      (text_for brings)
      tree
      nothing
      5
      1
      (build_packet (text_for brings) mid_data brings (8 ∷ 9 ∷ []))
      one
    ≡ handle_data nothing 5 "a" 3 2 7 (8 ∷ 9 ∷ []) 1 one
receive-data_example =
    receive-data (text_for brings) tree nothing 5 1 "a" 3 7 (8 ∷ 9 ∷ []) one (omega arith)
      (omega arith) (omega arith) (omega arith) refl

one-IsServer : IsServer one
unfolding connect
one-IsServer = Reaches-IsServer tt one (onward _ _ _ (connected 1 (listening tt) tt) (here _))

asked : Server (Unit {0})
asked = request_missing "a" 1 one

asking_ends_well :
    receive (text_for asks) tree nothing 5 1 (0 ∷ 1 ∷ 0 ∷ 2 ∷ 123 ∷ 125 ∷ []) one ≡ ok asked
unfolding receive read_header on_message on_request read_request_header request_bytes request_header
    asked
asking_ends_well = refl

receive-IsServer_example : IsServer asked
receive-IsServer_example =
    receive-IsServer (text_for asks) tree nothing 5 1 (0 ∷ 1 ∷ 0 ∷ 2 ∷ 123 ∷ 125 ∷ []) one asked
      one-IsServer asking_ends_well
