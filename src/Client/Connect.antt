-- ===== src/Client/Connect.antt =====
-- The address in a URL, `_alloclient_connect` of src/client/client.c. A string is its bytes, without
-- the zero at its end, and a pointer into it what is left from there.
use mathlib.Core.Option
use allonet.Common.{
  ℕ, ◌+◌, ◌-◌, ◌*◌, ◌%◌, ◌^◌, List, [], ◌∷◌, Option, none, some, Bool, true, false, ◌&&◌, ◌||◌,
  length, take, drop, leb, ltb, ◌==◌, if◌then◌else◌,
}
use allonet.Common.Size.{int_limit, sub_size}
use allonet.Common.Outcome.{Outcome, ok, wild, deref, ◌>>=◌}

-- "alloplace://", "://", ":" and "/".
abbrev pub after_name : List ℕ
after_name = 58 ∷ 47 ∷ 47 ∷ []

abbrev pub scheme : List ℕ
scheme = 97 ∷ 108 ∷ 108 ∷ 111 ∷ 112 ∷ 108 ∷ 97 ∷ 99 ∷ 101 ∷ after_name

abbrev pub colon : List ℕ
colon = 58 ∷ []

abbrev pub slash : List ℕ
slash = 47 ∷ []

unfoldable pub starts_with : List ℕ → List ℕ → Bool
starts_with [] xs = true
starts_with (n ∷ ns) [] = false
starts_with (n ∷ ns) (x ∷ xs) = n == x && starts_with ns xs

-- `strstr(xs, needle)`.
unfoldable pub strstr : List ℕ → List ℕ → Option (List ℕ)
unfolding starts_with
strstr [] needle = if starts_with needle [] then some [] else none
strstr (x ∷ xs) needle =
    let later = strstr xs needle in if starts_with needle (x ∷ xs) then some (x ∷ xs) else later

-- `isspace` and `isdigit`.
abbrev pub is_space : ℕ → Bool
is_space x = x == 32 || (leb 9 x && leb x 13)

abbrev pub is_digit : ℕ → Bool
is_digit x = leb 48 x && leb x 57

-- `atoi`: the digits behind spaces and a sign. A number that no `int` holds promises nothing.
unfoldable pub digits : ℕ → List ℕ → ℕ
digits n [] = n
digits n (x ∷ xs) = let more = digits (n * 10 + (x - 48)) xs in if is_digit x then more else n

abbrev pub to_port : Bool → ℕ → Outcome ℕ
to_port negative n =
    if ltb n int_limit then ok (if negative then (2 ^ 32 - n) % 2 ^ 16 else n % 2 ^ 16) else wild

-- What `address.port`, of 16 bits, keeps of it.
unfoldable pub atoi_port : List ℕ → Outcome ℕ
unfolding digits
atoi_port [] = ok 0
atoi_port (x ∷ xs) =
    let later = atoi_port xs in
    if is_space x
    then later
    else if x == 45
    then to_port true (digits 0 xs)
    else if x == 43
    then to_port false (digits 0 xs)
    else to_port false (digits 0 (x ∷ xs))

-- `allo_strndup`. It does not look for the end of the string: behind that it copies on, into memory
-- that for such a length is not to be had.
unfoldable pub strndup : List ℕ → ℕ → Outcome (Option (List ℕ))
strndup s n = if n == 0 then ok none else if leb n (length s) then ok (some (take n s)) else wild

-- `justhost` and `justport`.
pub record HostAndPort : Type 0 where
  pub host : Option (List ℕ)
  pub port : Option (List ℕ)

abbrev pub host_length : List ℕ → Option (List ℕ) → Option (List ℕ) → ℕ
host_length s (some port) path = length s - length port - 1
host_length s none (some path) = length s - length path
host_length s none none = length s

unfoldable pub port_text : Option (List ℕ) → Option (List ℕ) → Outcome (Option (List ℕ))
unfolding strndup
port_text none path = ok none
port_text (some port) none = ok (some port)
port_text (some port) (some path) = strndup port (sub_size (length port) (length path))

-- `port` and `slash` as they are found.
unfoldable pub split_at : List ℕ → Option (List ℕ) → Option (List ℕ) → Outcome HostAndPort
unfolding strndup port_text
split_at s port path = do
  host ← strndup s (host_length s port path)
  text ← port_text port path
  ok (record { host = host; port = text })

unfoldable pub split_address : List ℕ → Outcome HostAndPort
unfolding strstr split_at
split_address s = split_at s (Option.map (drop 1) (strstr s colon)) (strstr s slash)

-- Where no "alloplace://" is in the URL, it is refused.
unfoldable pub parse_url : List ℕ → Outcome (Option HostAndPort)
unfolding strstr split_address
parse_url url = elim (strstr url scheme) [
  | none ↦ ok none
  | some _ ↦ (do
    named ← deref (strstr url after_name)
    parts ← split_address (drop 3 named)
    ok (some parts))
]

-- `address.port`.
unfoldable pub port_of : HostAndPort → Outcome ℕ
unfolding atoi_port
port_of p = elim p.port [ none ↦ ok 21_337 | some text ↦ atoi_port text ]
