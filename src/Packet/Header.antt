-- ===== src/Packet/Header.antt =====
-- The headers of the asset channel: `asset_read_request_header`, `asset_read_data_header`,
-- `asset_read_error_header`, and those that `_asset_request`, `asset_deliver_bytes` and
-- `asset_error` build.
use allonet.Common.{ℕ, ◌<◌, ◌≡◌, List, [], ◌∷◌, Option, none, some, String, map}
use allonet.Common.Size.{int_limit, to_int}

-- What is asked of cJSON's values: reading a field, and what a value is; that a created value reads
-- back, a number as long as it fits an `int`; and that a created object has its fields, whose keys
-- are told apart.
pub record JsonTree (Json : Type 0) : Type 0 where
  -- `cJSON_GetObjectItem`, also of NULL, and the `string` of an item, its key.
  pub get_item : Option Json → String → Option Json
  pub key : Json → String
  -- `cJSON_IsString` with `valuestring`, `cJSON_IsArray` with the items, `cJSON_IsNumber` with
  -- `(size_t)valueint`.
  pub text : Json → Option String
  pub items : Json → Option (List Json)
  pub number : Json → Option ℕ
  -- `cJSON_CreateString`, `cJSON_CreateNumber`, `cJSON_CreateIntArray`, and an object of fields.
  pub create_string : String → Json
  pub create_number : ℕ → Json
  pub create_int_array : List ℕ → Json
  pub create_object : List (String × Json) → Json
  -- A value as an item of an object, under a key.
  pub named : String → Json → Json
  pub key_named : (k : String) (j : Json) → key (named k j) ≡ k
  pub text_named : (k : String) (j : Json) → text (named k j) ≡ text j
  pub items_named : (k : String) (j : Json) → items (named k j) ≡ items j
  pub number_named : (k : String) (j : Json) → number (named k j) ≡ number j
  pub text_create : (s : String) → text (create_string s) ≡ some s
  pub items_create : (ns : List ℕ) → items (create_int_array ns) ≡ some (map create_number ns)
  pub number_create : (n : ℕ) → n < int_limit → number (create_number n) ≡ some n
  pub get_id :
      (j : Json) (fs : List (String × Json))
      → get_item (some (create_object (("id", j) ∷ fs))) "id" ≡ some (named "id" j)
  pub get_range :
      (i j : Json) (fs : List (String × Json))
      → get_item (some (create_object (("id", i) ∷ ("range", j) ∷ fs))) "range"
        ≡ some (named "range" j)
  pub get_total_length :
      (i r j : Json) (fs : List (String × Json))
      → get_item
          (some (create_object (("id", i) ∷ ("range", r) ∷ ("total_length", j) ∷ fs)))
          "total_length"
        ≡ some (named "total_length" j)

-- What reading a header comes to: what was read, or the error response: the asset id in it, and its
-- reason.
pub data Header {ℓ} (A : Type ℓ) : Type ℓ where
  read : A → Header A
  refused : String → String → Header A

pub record Request : Type 0 where
  pub id : String
  pub start : ℕ
  pub length : ℕ

pub record Chunk : Type 0 where
  pub id : String
  pub start : ℕ
  pub length : ℕ
  pub total_length : ℕ

abbrev pub bind_header {ℓ} : {A B : Type ℓ} → Header A → (A → Header B) → Header B
bind_header (read a) f = f a
bind_header (refused id reason) f = refused id reason

abbrev pub expect {ℓ} : {A : Type ℓ} → Option A → String → String → Header A
expect none id reason = refused id reason
expect (some a) id reason = read a

abbrev pub id_reason : String
id_reason = "The 'id' field must be a string"

abbrev pub data_id_reason : String
data_id_reason = "The 'id' field must be present and be a string"

abbrev pub range_reason : String
range_reason = "The 'range' field must be an array with exactly two integers"

abbrev pub data_range_reason : String
data_range_reason = "The 'range' field must be present and be an array with exactly two integers"

abbrev pub total_reason : String
total_reason = "The 'total_length' field must be present and a number"

module _ {Json : Type 0} (c : JsonTree Json) where
  open c use {get_item, key, text, items, number}

  -- A field of a header, if it is there and of the type that `get` reads.
  abbrev pub field {ℓ} : {A : Type ℓ} → (Json → Option A) → Option Json → String → Option A
  field get header name = elim (get_item header name) [ none ↦ none | some j ↦ get j ]

  abbrev pub key_of_id : Option Json → String
  key_of_id header = elim (get_item header "id") [ none ↦ "" | some j ↦ key j ]

  -- The two numbers of a range that is an array; `named` is the id of the error response.
  unfoldable pub read_range : String → List Json → Header (ℕ × ℕ)
  read_range named (start ∷ len ∷ []) =
      bind_header (expect (number start) named range_reason)
        (λ a. bind_header (expect (number len) named range_reason) (λ b. read (a, b)))
  read_range named _ = refused named range_reason

  -- `asset_read_request_header`. The error responses name the asset by `id->string`.
  unfoldable pub read_request_header : Option Json → Header Request
  unfolding read_range
  read_request_header header = bind_header (expect (field text header "id") "" id_reason) (λ id.
      bind_header (expect (field items header "range") (key_of_id header) range_reason) (λ range.
        bind_header (read_range (key_of_id header) range)
          (λ r. read (record { id = id; start = r.0; length = r.1 }))))

  -- `asset_read_data_header`.
  unfoldable pub read_data_header : Option Json → Header Chunk
  unfolding read_range
  read_data_header header = bind_header (expect (field text header "id") "" data_id_reason) (λ id.
      bind_header (expect (field items header "range") (key_of_id header) data_range_reason)
        (λ range. bind_header (read_range (key_of_id header) range) (λ r.
          bind_header (expect (field number header "total_length") (key_of_id header) total_reason)
            (λ total. read (record { id = id; start = r.0; length = r.1; total_length = total })))))

  -- `asset_read_error_header`: the id, the reason and the code, as far as they are set.
  unfoldable pub read_error_header : Option Json → Option String × Option String × Option ℕ
  read_error_header header = elim (field text header "id") [
    | none ↦ (none, none, none)
    | some id ↦ elim (field text header "error_reason") [
      | none ↦ (some id, none, none)
      | some reason ↦ (some id, some reason, field number header "error_code")
    ]
  ]

  open c use {create_string, create_number, create_int_array, create_object}

  -- The header of `_asset_request` without an entity, and of `asset_deliver_bytes`; what is put
  -- into an array of `int` is truncated.
  unfoldable pub request_header : String → ℕ → ℕ → Json
  unfolding to_int
  request_header id offset len = create_object (
      ("id", create_string id) ∷ ("range", create_int_array (to_int offset ∷ to_int len ∷ [])) ∷ [])

  unfoldable pub data_header : String → ℕ → ℕ → ℕ → Json
  unfolding to_int
  data_header id offset len total = create_object (
      ("id", create_string id)
      ∷ ("range", create_int_array (to_int offset ∷ to_int len ∷ []))
      ∷ ("total_length", create_number total)
      ∷ [])
