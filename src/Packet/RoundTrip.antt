-- ===== src/Packet/RoundTrip.antt =====
-- Building packets and headers, and reading them, src/asset.c.
use allonet.Common.{
  ℕ, ◌/◌, ◌%◌, ◌^◌, ◌<◌, ◌≡◌, refl, List, [], ◌∷◌, ◌++◌, some, true, String, take, drop, length,
  leb, arith, length-append, ap, ap₂, ◌∙◌,
}
use allonet.Common.Size.{int_limit, to_int, to_int_small}
use allonet.Common.Outcome.{ok}
use allonet.Packet.{JsonText, PrintsBack, get_short, build_packet, read_header, read_sized}
use allonet.Packet.Header.{
  JsonTree, read, read_request_header, read_data_header, request_header, data_header,
}

take-append : (xs ys : List ℕ) → take (length xs) (xs ++ ys) ≡ xs
take-append [] ys = refl
take-append (x ∷ xs) ys = ap (λ l. x ∷ l) (take-append xs ys)

drop-append : (xs ys : List ℕ) → drop (length xs) (xs ++ ys) ≡ ys
drop-append [] ys = refl
drop-append (x ∷ xs) ys = drop-append xs ys

get-put_short : (n : ℕ) → n < 2 ^ 16 → get_short ((n / 256) % 256) (n % 256) ≡ n
get-put_short n h = omega arith

module _ {Json : Type 0} (t : JsonText Json) where
  read_sized_whole :
      (mid : ℕ) (header : Json) (payload : List ℕ)
      → PrintsBack t header
      → read_sized t mid (length (t.print header)) (t.print header ++ payload)
        ≡ ok (record { mid = mid; header = some header; payload = payload })
  unfolding read_sized
  read_sized_whole mid header payload back =
      let text = t.print header in
      let room : leb (length text) (length (text ++ payload)) ≡ true =
        ground (arith, length-append text payload) in
      rw (read_sized, room, take-append text payload, drop-append text payload, back) (ground arith)

  -- A packet that is built is read back: its message id, its header and its payload; as long as
  -- the message id and the length of the printed header fit their 16 bits.
  pub read_header-build_packet :
      (mid : ℕ) (header : Json) (payload : List ℕ)
      → PrintsBack t header
      → mid < 2 ^ 16
      → length (t.print header) < 2 ^ 16
      → read_header t (build_packet t mid header payload)
        ≡ ok (record { mid = mid; header = some header; payload = payload })
  unfolding read_header build_packet
  read_header-build_packet mid header payload back small short =
      let text = t.print header in
      ap₂ (λ m k. read_sized t m k (text ++ payload)) (get-put_short mid small)
        (get-put_short (length text) short)
      ∙ read_sized_whole mid header payload back

module _ {Json : Type 0} (c : JsonTree Json) where
  -- A request that is built is read back, as long as its numbers fit an `int`.
  pub read_request_header-request_header :
      (id : String) (offset len : ℕ)
      → offset < int_limit
      → len < int_limit
      → read_request_header c (some (request_header c id offset len))
        ≡ read (record { id = id; start = offset; length = len })
  unfolding read_request_header request_header
  read_request_header-request_header id offset len h l =
      let i = c.create_string id in
      let r = c.create_int_array (to_int offset ∷ to_int len ∷ []) in
      ground (
        arith,
        c.get_id i (("range", r) ∷ []),
        c.get_range i r [],
        c.text_named "id" i,
        c.text_create id,
        c.items_named "range" r,
        c.items_create (to_int offset ∷ to_int len ∷ []),
        to_int_small offset h,
        to_int_small len l,
        c.number_create offset h,
        c.number_create len l,
      )

  -- The header of a chunk that is built is read back, as long as its numbers fit an `int`.
  pub read_data_header-data_header :
      (id : String) (offset len total : ℕ)
      → offset < int_limit
      → len < int_limit
      → total < int_limit
      → read_data_header c (some (data_header c id offset len total))
        ≡ read (record { id = id; start = offset; length = len; total_length = total })
  unfolding read_data_header data_header
  read_data_header-data_header id offset len total h l m =
      let i = c.create_string id in
      let r = c.create_int_array (to_int offset ∷ to_int len ∷ []) in
      let n = c.create_number total in
      ground (
        arith,
        c.get_id i (("range", r) ∷ ("total_length", n) ∷ []),
        c.get_range i r (("total_length", n) ∷ []),
        c.get_total_length i r n [],
        c.text_named "id" i,
        c.text_create id,
        c.items_named "range" r,
        c.items_create (to_int offset ∷ to_int len ∷ []),
        c.number_named "total_length" n,
        to_int_small offset h,
        to_int_small len l,
        c.number_create offset h,
        c.number_create len l,
        c.number_create total m,
      )
