-- ===== src/Packet.antt =====
-- The packets of the asset channel, src/asset.c: a message id and the length of the header, 16 bits
-- each in network order, then the header, which is JSON, and then the payload.
pub mod Header
pub mod RoundTrip
pub mod Receive
mod Examples
use allonet.Common.{
  ℕ, ◌+◌, ◌*◌, ◌/◌, ◌%◌, ◌^◌, ◌≡◌, List, [], ◌∷◌, ◌++◌, Option, some, none, true, false, take, drop,
  length, leb, ◌==◌,
}
use allonet.Common.Outcome.{Outcome, ok, wild, assert, ◌>>=◌, ◌>>◌}

-- `cJSON_Print` and `cJSON_ParseWithLengthOpts`, on bytes: the second gives the value, or NULL, and
-- how far it read.
pub record JsonText (Json : Type 0) : Type 0 where
  pub print : Json → List ℕ
  pub parse : List ℕ → Option Json × ℕ

-- What is relied on, for one value: parsed, what was printed is that value, read to its end.
abbrev pub PrintsBack : {Json : Type 0} → JsonText Json → Json → Type 0
PrintsBack t j = t.parse (t.print j) ≡ (some j, length (t.print j))

-- `htons`, as the two bytes that are sent, of the low 16 bits; and `ntohs`.
abbrev pub put_short : ℕ → List ℕ
put_short n = (n / 256) % 256 ∷ n % 256 ∷ []

abbrev pub get_short : ℕ → ℕ → ℕ
get_short high low = high * 256 + low

-- What `asset_read_header` leaves in its out-parameters.
pub record Received (Json : Type 0) : Type 0 where
  pub mid : ℕ
  pub header : Option Json
  pub payload : List ℕ

module _ {Json : Type 0} (t : JsonText Json) where
  open t use {print, parse}

  -- `asset_build_enet_packet`.
  unfoldable pub build_packet : ℕ → Json → List ℕ → List ℕ
  build_packet mid header payload =
      put_short mid ++ (put_short (length (print header)) ++ (print header ++ payload))

  -- `asset_read_header` once both numbers are read; it does not look at `*data_length` first.
  unfoldable pub read_sized : ℕ → ℕ → List ℕ → Outcome (Received Json)
  read_sized mid header_len rest =
      let parsed = parse (take header_len rest) in
      elim (leb header_len (length rest)) [
        | false ↦ wild
        | true ↦
            assert (parsed.1 == header_len)
            >> ok (record { mid = mid; header = parsed.0; payload = drop header_len rest })
      ]

  -- `asset_read_header`.
  unfoldable pub read_header : List ℕ → Outcome (Received Json)
  unfolding read_sized
  read_header (m1 ∷ m2 ∷ h1 ∷ h2 ∷ rest) = read_sized (get_short m1 m2) (get_short h1 h2) rest
  read_header _ = wild
