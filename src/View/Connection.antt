-- ===== src/View/Connection.antt =====
-- viewer/crates/btelem-viewer/src/view_state.rs: `Connection`. The text of an error is its kind.
pub mod RoundTrip
use btelem.Prelude.{
  ℕ, zero, suc, ◌+◌, ◌-◌, ◌*◌, ◌<◌, Bool, true, false, ◌&&◌, List, [], ◌∷◌, ◌++◌, Option, none,
  some, Text, Result, ok, err, ◌>>=◌, codes, ltb, leb, ◌==◌, if◌then◌else◌, decimal,
}

pub data Protocol : Type 0 where
  tcp udp serial : Protocol

pub record Connection : Type 0 where
  pub host : Text
  pub port : ℕ
  pub protocol : Protocol

pub data ParseError : Type 0 where
  expected_host_port : Text → ParseError
  bad_port : Text → ParseError

abbrev pub default_connection : Connection
default_connection = record { host = codes "127.0.0.1"; port = 4040; protocol = tcp }

unfoldable pub strip_prefix : Text → Text → Option Text
strip_prefix s [] = some s
strip_prefix [] (c ∷ cs) = none
strip_prefix (d ∷ s) (c ∷ cs) = if d == c then strip_prefix s cs else none

-- `rsplit_once(':')`
unfoldable pub rsplit_colon : Text → Option (Text × Text)
rsplit_colon [] = none
rsplit_colon (c ∷ cs) = elim (rsplit_colon cs) [
  | some (h, p) ↦ some (c ∷ h, p)
  | none ↦ if c == b':' then some ([], cs) else none
]

-- `u16::from_str`: digits, behind a `+` at most, and no number past 65535.
unfoldable pub parse_digits : ℕ → Text → Option ℕ
parse_digits acc [] = some acc
parse_digits acc (c ∷ cs) =
    let v = acc * 10 + (c - b'0') in
    let rest = parse_digits v cs in
    if leb b'0' c && leb c b'9' then if ltb v 0x1_0000 then rest else none else none

unfoldable pub parse_u16 : Text → Option ℕ
unfolding parse_digits
parse_u16 [] = none
parse_u16 (c ∷ []) = parse_digits 0 (c ∷ [])
parse_u16 (c ∷ d ∷ cs) = if c == b'+' then parse_digits 0 (d ∷ cs) else parse_digits 0 (c ∷ d ∷ cs)

-- The protocol by the prefix, and the rest.
unfoldable pub split_protocol : Text → Protocol × Text
unfolding strip_prefix
split_protocol s = elim (strip_prefix s (codes "tcp://")) [
  | some r ↦ (tcp, r)
  | none ↦ elim (strip_prefix s (codes "udp://")) [
    | some r ↦ (udp, r)
    | none ↦ elim (strip_prefix s (codes "serial://")) [ some r ↦ (serial, r) | none ↦ (tcp, s) ]
  ]
]

unfoldable pub parse_host_port : Protocol → Text → Result ParseError Connection
unfolding rsplit_colon parse_u16
parse_host_port proto rest = elim (rsplit_colon rest) [
  | none ↦ err (expected_host_port rest)
  | some (h, p) ↦ elim (parse_u16 p) [
    | none ↦ err (bad_port p)
    | some port ↦ ok (record { host = h; port = port; protocol = proto })
  ]
]

unfoldable pub parse_rest : Protocol → Text → Result ParseError Connection
unfolding parse_host_port
parse_rest serial rest = ok (record { host = rest; port = 0; protocol = serial })
parse_rest proto rest = parse_host_port proto rest

unfoldable pub parse : Text → Result ParseError Connection
unfolding split_protocol parse_rest
parse s = let (proto, rest) = split_protocol s in parse_rest proto rest

unfoldable pub socket_addr : Connection → Text
socket_addr c = c.host ++ (b':' ∷ decimal c.port)

unfoldable pub label : Protocol → Text
label tcp = codes "TCP"
label udp = codes "UDP"
label serial = codes "Serial"

unfoldable pub pretty_with : Protocol → Text → ℕ → Text
pretty_with serial host port = codes "serial://" ++ host
pretty_with tcp host port = codes "tcp://" ++ (host ++ (b':' ∷ decimal port))
pretty_with udp host port = codes "udp://" ++ (host ++ (b':' ∷ decimal port))

unfoldable pub pretty : Connection → Text
unfolding pretty_with
pretty c = pretty_with c.protocol c.host c.port
