-- ===== src/Client/Url.antt =====
-- URLs and what a client makes of them, `_alloclient_connect` of src/client/client.c.
use mathlib.Core.Option
use mathlib.Core.List.{append-nil}
use allonet.Common.{
  ℕ, zero, suc, ◌+◌, ◌-◌, ◌^◌, ◌<◌, ◌≤◌, ◌≡◌, refl, ap, ◌∙◌, List, [], ◌∷◌, ◌++◌, Option, none,
  some, false, length, take, drop, ◌==◌, arith, length-append,
}
use allonet.Common.All.{All}
use allonet.Common.Size.{sub_size}
use allonet.Common.Outcome.{ok, wild, ◌>>=◌}
use allonet.Client.Connect.{
  starts_with, strstr, scheme, colon, slash, strndup, host_length, split_at, port_text,
  split_address, parse_url,
}

-- No byte of it is `n`.
abbrev pub Without : ℕ → List ℕ → Type 0
Without n xs = All (λ x. (n == x) ≡ false) xs

strstr-append :
    (n : ℕ) (xs rest : List ℕ) → Without n xs → strstr (xs ++ rest) (n ∷ []) ≡ strstr rest (n ∷ [])
unfolding strstr starts_with
strstr-append n [] rest h = refl
strstr-append n (x ∷ xs) rest h = ground (arith, h.0, strstr-append n xs rest h.1)

strstr-none : (n : ℕ) (xs : List ℕ) → Without n xs → strstr xs (n ∷ []) ≡ none
unfolding strstr starts_with
strstr-none n [] h = ground arith
strstr-none n (x ∷ xs) h = ground (arith, h.0, strstr-none n xs h.1)

take-append : (xs ys : List ℕ) → take (length xs) (xs ++ ys) ≡ xs
take-append [] ys = refl
take-append (x ∷ xs) ys = ap (λ l. x ∷ l) (take-append xs ys)

strndup-append : (xs ys : List ℕ) → 0 < length xs → strndup (xs ++ ys) (length xs) ≡ ok (some xs)
unfolding strndup
strndup-append xs ys pos = ground (arith, length-append xs ys, take-append xs ys)

-- What is behind the scheme is split.
parse_url-scheme : (s : List ℕ) → parse_url (scheme ++ s) ≡ (split_address s >>= λ p. ok (some p))
unfolding parse_url strstr starts_with
parse_url-scheme s = refl

abbrev pub port_part : Option (List ℕ) → List ℕ
port_part none = []
port_part (some t) = 58 ∷ t

abbrev pub path_part : Option (List ℕ) → List ℕ
path_part none = []
path_part (some t) = 47 ∷ t

-- A URL of the form alloplace://hostname{:port}{/path}.
pub record Url : Type 0 where
  pub host : List ℕ
  pub port : Option (List ℕ)
  pub path : Option (List ℕ)

abbrev pub print : Url → List ℕ
print u = scheme ++ (u.host ++ (port_part u.port ++ path_part u.path))

-- A port has no slash, and where there is none the path has no colon.
abbrev pub PlainBehind : Option (List ℕ) → Option (List ℕ) → Type 0
PlainBehind none none = Unit {0}
PlainBehind none (some path) = Without 58 path
PlainBehind (some port) path = Without 47 port × (0 < length port)

found_colon :
    (port path : Option (List ℕ))
    → PlainBehind port path
    → Option.map (drop 1) (strstr (port_part port ++ path_part path) colon)
      ≡ Option.map (λ t. t ++ path_part path) port
unfolding strstr starts_with
found_colon none none h = refl
found_colon none (some path) h = ground (arith, strstr-none 58 path h)
found_colon (some port) path h = refl

found_slash :
    (port path : Option (List ℕ))
    → PlainBehind port path
    → strstr (port_part port ++ path_part path) slash ≡ Option.map (λ t. 47 ∷ t) path
unfolding strstr starts_with
found_slash none none h = refl
found_slash none (some path) h = refl
found_slash (some port) none h = rw (append-nil port) (ground (arith, strstr-none 47 port h.0))
found_slash (some port) (some path) h = ground (arith, strstr-append 47 port (47 ∷ path) h.0)

split_at-ok :
    (s : List ℕ) (port path : Option (List ℕ)) (host text : Option (List ℕ))
    → strndup s (host_length s port path) ≡ ok host
    → port_text port path ≡ ok text
    → split_at s port path ≡ ok (record { host = host; port = text })
unfolding split_at
split_at-ok s port path host text h t =
    ap (λ m. m >>= λ a. port_text port path >>= λ b. ok (record { host = a; port = b })) h
    ∙ ap (λ m. m >>= λ b. ok (record { host = host; port = b })) t

-- As far as the host goes.
host_strndup :
    (host behind : List ℕ) (n : ℕ)
    → 0 < length host
    → n ≡ length host
    → strndup (host ++ behind) n ≡ ok (some host)
host_strndup host behind n pos e = rw (e) (strndup-append host behind pos)

split_at-parts :
    (host : List ℕ) (port path : Option (List ℕ))
    → 0 < length host
    → PlainBehind port path
    → length (host ++ (port_part port ++ path_part path)) < 2 ^ 64
    → split_at
        (host ++ (port_part port ++ path_part path))
        (Option.map (λ t. t ++ path_part path) port)
        (Option.map (λ t. 47 ∷ t) path)
      ≡ ok (record { host = some host; port = port })
unfolding port_text
split_at-parts host none none pos h short =
    split_at-ok (host ++ []) none none (some host) none
      (host_strndup host [] (length (host ++ [])) pos (omega (arith, length-append host []))) refl
split_at-parts host none (some path) pos h short =
    let s = host ++ (47 ∷ path) in
    split_at-ok s none (some (47 ∷ path)) (some host) none
      (host_strndup host (47 ∷ path) (length s - length (47 ∷ path)) pos
        (omega (arith, length-append host (47 ∷ path))))
      refl
split_at-parts host (some port) none pos h short =
    let behind = port ++ [] in
    let s = host ++ (58 ∷ behind) in
    split_at-ok s (some behind) none (some host) (some port)
      (host_strndup host (58 ∷ behind) (length s - length behind - 1) pos
        (omega (arith, length-append host (58 ∷ behind))))
      (ap (λ t. ok (some t)) (append-nil port))
split_at-parts host (some port) (some path) pos h short =
    let behind = port ++ (47 ∷ path) in
    let s = host ++ (58 ∷ behind) in
    let all : length s ≡ length host + suc (length behind) = length-append host (58 ∷ behind) in
    let size : length behind ≡ length port + length (47 ∷ path) = length-append port (47 ∷ path) in
    let d : sub_size (length behind) (length (47 ∷ path)) ≡ length port =
      omega (arith, all, size) in
    split_at-ok s (some behind) (some (47 ∷ path)) (some host) (some port)
      (host_strndup host (58 ∷ behind) (length s - length behind - 1) pos (omega (arith, all)))
      (ap (strndup behind) d ∙ strndup-append port (47 ∷ path) h.1)

split_address-parts :
    (host : List ℕ) (port path : Option (List ℕ))
    → 0 < length host
    → Without 58 host
    → Without 47 host
    → PlainBehind port path
    → length (host ++ (port_part port ++ path_part path)) < 2 ^ 64
    → split_address (host ++ (port_part port ++ path_part path))
      ≡ ok (record { host = some host; port = port })
unfolding split_address
split_address-parts host port path pos colons slashes h short =
    let behind = port_part port ++ path_part path in
    rw
      (
        split_address,
        strstr-append 58 host behind colons,
        strstr-append 47 host behind slashes,
        found_colon port path h,
        found_slash port path h,
      )
      (split_at-parts host port path pos h short)

-- A URL alloplace://hostname{:port}{/path}, whose host is not empty and has neither a colon nor a
-- slash, whose port, if there is one, is not empty and has no slash, and whose path has no colon
-- where there is no port: the client takes it apart into just that host and that port.
pub parse_url-print :
    (u : Url)
    → 0 < length u.host
    → Without 58 u.host
    → Without 47 u.host
    → PlainBehind u.port u.path
    → length (print u) < 2 ^ 64
    → parse_url (print u) ≡ ok (some (record { host = some u.host; port = u.port }))
parse_url-print u pos colons slashes h short =
    let behind = port_part u.port ++ path_part u.path in
    parse_url-scheme (u.host ++ behind)
    ∙ ap (λ m. m >>= λ p. ok (some p))
        (split_address-parts u.host u.port u.path pos colons slashes h
          (omega (arith, length-append scheme (u.host ++ behind))))

strndup-wild : (s : List ℕ) (n : ℕ) → length s < n → strndup s n ≡ wild
unfolding strndup
strndup-wild s n h = ground arith

strndup-inside : (s : List ℕ) (n : ℕ) → n ≤ length s → (o : Option (List ℕ)) × (strndup s n ≡ ok o)
unfolding strndup
strndup-inside s zero h = (none, refl)
strndup-inside s (suc n) h = (some (take (suc n) s), ground (arith, h))

split_at-wild :
    (s port path : List ℕ)
    → length port < length path
    → length path ≤ length s
    → length s < 2 ^ 64
    → split_at s (some port) (some path) ≡ wild
unfolding split_at port_text
split_at-wild s port path behind inside short =
    let (host, e) = strndup-inside s (length s - length port - 1) (omega arith) in
    let n = sub_size (length port) (length path) in
    ap
      (λ m.
        m >>= λ a. port_text (some port) (some path) >>= λ b. ok (record { host = a; port = b }))
      e
    ∙ ap (λ m. m >>= λ b. ok (record { host = host; port = b })) (strndup-wild port n (omega arith))

-- A path with a colon in it where there is no port: the colon is taken for that of a port, which
-- ends before it begins, so that its length wraps around and its copy reaches memory that is not there.
pub parse_url_colon_in_path :
    (host before after : List ℕ)
    → Without 58 host
    → Without 47 host
    → Without 58 before
    → length (scheme ++ (host ++ (47 ∷ (before ++ (58 ∷ after))))) < 2 ^ 64
    → parse_url (scheme ++ (host ++ (47 ∷ (before ++ (58 ∷ after))))) ≡ wild
unfolding split_address strstr starts_with
parse_url_colon_in_path host before after colons slashes plain short =
    let path = 47 ∷ (before ++ (58 ∷ after)) in
    let size : length (before ++ (58 ∷ after)) ≡ length before + suc (length after) =
      length-append before (58 ∷ after) in
    let all : length (host ++ path) ≡ length host + length path = length-append host path in
    let found : Option.map (drop 1) (strstr path colon) ≡ some after =
      ap (Option.map (drop 1)) (strstr-append 58 before (58 ∷ after) plain) in
    let lost : split_address (host ++ path) ≡ wild =
      rw
        (
          split_address,
          strstr-append 58 host path colons,
          strstr-append 47 host path slashes,
          found,
        )
        (split_at-wild (host ++ path) after path (omega (arith, size)) (omega (arith, all))
          (omega (arith, length-append scheme (host ++ path)))) in
    parse_url-scheme (host ++ path) ∙ ap (λ m. m >>= λ p. ok (some p)) lost
