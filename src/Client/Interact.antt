-- ===== src/Client/Interact.antt =====
-- Interactions, src/client/client.c: `_alloclient_send_interaction`, `parse_interaction` and
-- `parse_command`.
use text.Mathlib.Text.{◌==◌ as str_eq}
use mathlib.Core.Option
use allonet.Common.{
  ◌∙◌, ap, refl, ℕ, ◌≡◌, List, [], ◌∷◌, Option, none, some, Bool, true, false, String, get_elem?,
  if◌then◌else◌,
}
use allonet.Common.Outcome.{Outcome, ok, deref, ◌>>=◌}

-- What is used of cJSON's values: strings and arrays, their entries and what they hold, and
-- printing and parsing. An entry that is not there is NULL, and so is the string of no string.
pub record Values (Json : Type 0) : Type 0 where
  pub text : String → Json
  pub array : List Json → Json
  pub get_text : Json → Option String
  pub get_number : Json → ℕ
  pub item : Json → ℕ → Option Json
  pub print : Json → String
  pub parse : String → Option Json

-- `allo_interaction`.
pub record Interaction : Type 0 where
  pub type_ : Option String
  pub sender_entity_id : Option String
  pub receiver_entity_id : Option String
  pub request_id : Option String
  pub body : Option String

-- What the program has set for a lost connection and for an interaction, and `avatar_id`.
pub record Listener (C : Type 0) : Type 0 where
  pub disconnected_callback : Option (ℕ → Option String → C → C)
  pub interaction_callback : Option (Interaction → C → C)
  pub set_avatar_id : Option String → C → C

-- `cjson_create_list`: its arguments end with a NULL.
unfoldable pub until_null : {Json : Type 0} → List (Option Json) → List Json
until_null [] = []
until_null (none ∷ rest) = []
until_null (some j ∷ rest) = j ∷ until_null rest

module _ {Json : Type 0} (v : Values Json) where
  -- `cJSON_GetArrayItem` of what may be NULL, and `cJSON_GetStringValue` likewise.
  abbrev pub item_of : Option Json → ℕ → Option Json
  item_of none i = none
  item_of (some j) i = v.item j i

  abbrev pub text_of : Option Json → Option String
  text_of none = none
  text_of (some j) = v.get_text j

  abbrev pub number_of : Option Json → ℕ
  number_of none = 0
  number_of (some j) = v.get_number j

  -- `cmdrep` of `_alloclient_send_interaction`.
  unfoldable pub interaction_command : Interaction → Json
  unfolding until_null
  interaction_command i = v.array (
      until_null (
        some (v.text "interaction")
        ∷ Option.map v.text i.type_
        ∷ Option.map v.text i.sender_entity_id
        ∷ Option.map v.text i.receiver_entity_id
        ∷ Option.map v.text i.request_id
        ∷ elim i.body [ none ↦ none | some t ↦ v.parse t ]
        ∷ []))

  -- The packet that `_alloclient_send_interaction` sends, as its text.
  unfoldable pub alloclient_send_interaction : Interaction → String
  unfolding interaction_command
  alloclient_send_interaction i = v.print (interaction_command i)

module _ {Json C : Type 0} (v : Values Json) (l : Listener C) where
  unfoldable pub hand_on : Interaction → C → C
  hand_on i c = elim l.interaction_callback [ none ↦ c | some f ↦ f i c ]

  -- The answer to the client's announcement.
  unfoldable pub on_announce : Json → Interaction → C → Outcome (Bool × C)
  unfolding hand_on
  on_announce body i c = deref (text_of v (v.item body 1)) >>= λ second.
      if str_eq second "error"
      then (deref l.disconnected_callback >>= λ f.
          ok (false, f (number_of v (v.item body 2)) (text_of v (v.item body 3)) c))
      else ok (true, hand_on i (l.set_avatar_id (some second) c))

  -- What is done with an interaction whose body starts so.
  unfoldable pub handle_interaction : String → Json → Interaction → C → Outcome (Bool × C)
  unfolding hand_on on_announce
  handle_interaction first body i c =
      if str_eq first "announce" then on_announce body i c else ok (true, hand_on i c)

  -- `parse_interaction`.
  unfoldable pub parse_interaction : Json → C → Outcome (Bool × C)
  unfolding handle_interaction
  parse_interaction inter c = do
    type_ ← deref (v.item inter 1)
    from ← deref (v.item inter 2)
    to ← deref (v.item inter 3)
    request ← deref (v.item inter 4)
    body ← deref (v.item inter 5)
    first ← deref (text_of v (v.item body 0))
    handle_interaction first body
        (record {
          type_ = v.get_text type_;
          sender_entity_id = v.get_text from;
          receiver_entity_id = v.get_text to;
          request_id = v.get_text request;
          body = some (v.print body);
        })
        c

  -- `parse_command`.
  abbrev pub parse_named : String → Json → C → Outcome (Bool × C)
  parse_named called cmd c =
      if str_eq called "interaction" then parse_interaction cmd c else ok (true, c)

  unfoldable pub parse_command : Option Json → C → Outcome (Bool × C)
  unfolding parse_interaction
  parse_command cmdrep c = do
    name ← deref (item_of v cmdrep 0)
    called ← deref (v.get_text name)
    cmd ← deref cmdrep
    parse_named called cmd c

  -- `parse_packet_from_channel` with CHANNEL_COMMANDS: what `cJSON_ParseWithLengthOpts` makes of the
  -- packet.
  unfoldable pub receive_command : String → C → Outcome (Bool × C)
  unfolding parse_command
  receive_command packet c = parse_command (v.parse packet) c

-- What is relied on in cJSON, for a text and an array that it has made.
pub record Keeps {Json : Type 0} (v : Values Json) : Type 0 where
  pub text : (s : String) → v.get_text (v.text s) ≡ some s
  pub item : (js : List Json) (i : ℕ) → v.item (v.array js) i ≡ get_elem? js i

-- The command of an interaction, and that cJSON reads back what it prints of a value.
abbrev pub command : {Json : Type 0} → Values Json → String → String → String → String → Json → Json
command v type_ sender receiver request body = v.array (
    v.text "interaction"
    ∷ v.text type_
    ∷ v.text sender
    ∷ v.text receiver
    ∷ v.text request
    ∷ body
    ∷ [])

interaction_command-command :
    {Json : Type 0} (v : Values Json) (type_ sender receiver request body : String) (json : Json)
    → v.parse body ≡ some json
    → interaction_command v (record {
      type_ = some type_;
      sender_entity_id = some sender;
      receiver_entity_id = some receiver;
      request_id = some request;
      body = some body;
    })
      ≡ command v type_ sender receiver request json
unfolding interaction_command until_null
interaction_command-command v type_ sender receiver request body json parses =
    rw (interaction_command, until_null, parses) refl

abbrev pub PrintsBack : {Json : Type 0} → Values Json → Json → Type 0
PrintsBack v j = v.parse (v.print j) ≡ some j

module _ {Json C : Type 0} (v : Values Json) (l : Listener C) (keeps : Keeps v) where
  -- The command comes in.
  parse_command-command :
      (type_ sender receiver request first : String) (json : Json) (c : C)
      → text_of v (v.item json 0) ≡ some first
      → str_eq first "announce" ≡ false
      → parse_command v l (some (command v type_ sender receiver request json)) c
        ≡ ok (
          true,
          hand_on v l
              (record {
                type_ = some type_;
                sender_entity_id = some sender;
                receiver_entity_id = some receiver;
                request_id = some request;
                body = some (v.print json);
              })
              c,
        )
  unfolding parse_command parse_interaction handle_interaction
  parse_command-command type_ sender receiver request first json c starts other =
      simp (keeps.item, keeps.text, starts, other)

  -- An interaction that a client sends, with all of its strings and a body that is JSON, comes in at
  -- a client as the same interaction, the body printed anew, if the body starts with a string and is
  -- not an announcement, and if cJSON parses what it has printed of the command as that command.
  pub receive_command-alloclient_send_interaction :
      (type_ sender receiver request body first : String) (json : Json) (c : C)
      → v.parse body ≡ some json
      → text_of v (v.item json 0) ≡ some first
      → str_eq first "announce" ≡ false
      → PrintsBack v (command v type_ sender receiver request json)
      → receive_command v l
          (alloclient_send_interaction v (record {
            type_ = some type_;
            sender_entity_id = some sender;
            receiver_entity_id = some receiver;
            request_id = some request;
            body = some body;
          }))
          c
        ≡ ok (
          true,
          hand_on v l
              (record {
                type_ = some type_;
                sender_entity_id = some sender;
                receiver_entity_id = some receiver;
                request_id = some request;
                body = some (v.print json);
              })
              c,
        )
  unfolding receive_command alloclient_send_interaction
  receive_command-alloclient_send_interaction type_ sender receiver request body first json c parses
        starts other back =
      let sent = interaction_command-command v type_ sender receiver request body json parses in
      ap (λ j. parse_command v l (v.parse (v.print j)) c) sent
      ∙ ap (λ o. parse_command v l o c) back
      ∙ parse_command-command type_ sender receiver request first json c starts other
