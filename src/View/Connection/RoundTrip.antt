-- ===== src/View/Connection/RoundTrip.antt =====
-- viewer/crates/btelem-viewer/src/view_state.rs: parsing what `Connection::pretty` prints.
use btelem.Prelude.{
  ℕ, zero, suc, ◌+◌, ◌-◌, ◌*◌, ◌/◌, ◌%◌, ◌^◌, ◌≤◌, ◌<◌, ◌≡◌, refl, sym, ap, ◌∙◌, subst, ◌⊎◌, inl,
  inr, false, ◌&&◌, [], ◌∷◌, ◌++◌, none, some, some-injective, Text, ok, arith, ltb, ltb-false,
  ltb→lt, lt→ltb, leb, leb_yes, ◌==◌, Bool-cases, All, All-append, decimal, digits_from,
}
use native.Mathlib.Nat.{pow-suc}
use btelem.View.Connection.{
  Protocol, tcp, udp, serial, Connection, rsplit_colon, parse_digits, parse_u16, parse_host_port,
  parse, pretty_with, pretty,
}

abbrev IsDigit : ℕ → Type 0
IsDigit c = (48 ≤ c) × (c ≤ 57)

digits_from-IsDigit : (fuel n : ℕ) → All IsDigit (digits_from fuel n)
unfolding digits_from
digits_from-IsDigit zero n = tt
digits_from-IsDigit (suc fuel) n = elim (Bool-cases (ltb n 10)) [
  | inl e ↦ rw (e, digits_from) ((omega arith, omega (arith, ltb→lt n 10 e)), tt)
  | inr e ↦
      rw (e, digits_from)
        (All-append IsDigit (digits_from fuel (n / 10)) (48 + n % 10)
          (digits_from-IsDigit fuel (n / 10)) (omega arith, omega arith))
]

digit_no : (c k : ℕ) → IsDigit c → (k < 48) ⊎ (57 < k) → (c == k) ≡ false
digit_no c k d h = ground (arith, d.0, d.1)

-- No colon in digits: the last colon is the one before them.
rsplit_colon-digits : (s : Text) → All IsDigit s → rsplit_colon s ≡ none
unfolding rsplit_colon
rsplit_colon-digits [] d = refl
rsplit_colon-digits (c ∷ s) d =
    rw (rsplit_colon-digits s d.1, rsplit_colon, digit_no c b':' d.0 (inr (omega arith)))

rsplit_colon-append : (h s : Text) → All IsDigit s → rsplit_colon (h ++ (b':' ∷ s)) ≡ some (h, s)
unfolding rsplit_colon
rsplit_colon-append [] s d = rw (rsplit_colon-digits s d, rsplit_colon)
rsplit_colon-append (c ∷ h) s d = rw (rsplit_colon-append h s d)

parse_digits-cons :
    (acc c d : ℕ) (s : Text)
    → c ≡ 48 + d
    → d < 10
    → acc * 10 + d < 2 ^ 16
    → parse_digits acc (c ∷ s) ≡ parse_digits (acc * 10 + d) s
unfolding parse_digits
parse_digits-cons acc c d s e h l =
    let n : acc * 10 + (c - 48) ≡ acc * 10 + d = omega (arith, e) in
    rw
      (
        leb_yes 48 c (omega (arith, e)),
        leb_yes c 57 (omega (arith, e)),
        parse_digits,
        n,
        lt→ltb (acc * 10 + d) 65536 l,
      )
      refl

parse_digits-nil : (acc v : ℕ) → acc ≡ v → parse_digits acc [] ≡ some v
unfolding parse_digits
parse_digits-nil acc v e = ap some e

-- A digit more.
parse_digits-append :
    (acc : ℕ) (s : Text) (v d : ℕ)
    → parse_digits acc s ≡ some v
    → d < 10
    → v * 10 + d < 2 ^ 16
    → parse_digits acc (s ++ ((48 + d) ∷ [])) ≡ some (v * 10 + d)
unfolding parse_digits
parse_digits-append acc [] v d e h l =
    let a = some-injective e in
    parse_digits-cons acc (48 + d) d [] refl h (omega (arith, a)) ∙ ap some (omega (arith, a))
parse_digits-append acc (c ∷ s) v d e h l = elim (Bool-cases (leb 48 c && leb c 57)) [
  | inr k ↦ absurd (cc (rw (k, parse_digits) at e))
  | inl k ↦ elim (Bool-cases (ltb (acc * 10 + (c - 48)) 65536)) [
    | inr m ↦ absurd (cc (rw (k, parse_digits, m) at e))
    | inl m ↦
        rw (k, parse_digits, m)
          (parse_digits-append (acc * 10 + (c - 48)) s v d (rw (k, parse_digits, m) at e) h l)
  ]
]

parse_digits-digits_from :
    (fuel n : ℕ)
    → n < 10 ^ fuel
    → n < 2 ^ 16
    → 0 < fuel
    → parse_digits 0 (digits_from fuel n) ≡ some n
unfolding digits_from
parse_digits-digits_from zero n f h p = elim p [ ]
parse_digits-digits_from (suc fuel) n f h p = elim (Bool-cases (ltb n 10)) [
  | inl e ↦
      let zero_acc : ℕ = 0 in
      rw (e, digits_from)
        (parse_digits-cons zero_acc (48 + n) n [] refl (ltb→lt n 10 e) (omega (arith, h))
          ∙ parse_digits-nil (zero_acc * 10 + n) n (omega arith))
  | inr e ↦
      let big = ltb-false n 10 e in
      let ih =
        parse_digits-digits_from fuel (n / 10) (omega (arith, pow-suc 10 fuel, f))
          (omega (arith, h)) (more fuel n f big) in
      rw (e, digits_from)
        (parse_digits-append 0 (digits_from fuel (n / 10)) (n / 10) (n % 10) ih (omega arith)
            (omega (arith, h))
          ∙ ap some (omega arith))
]
  where
    more : (fuel n : ℕ) → n < 10 ^ suc fuel → 10 ≤ n → 0 < fuel
    more zero n f b = omega (arith, f, b)
    more (suc fuel) n f b = omega arith

parse_u16-digits :
    (c : ℕ) (s : Text) → All IsDigit (c ∷ s) → parse_u16 (c ∷ s) ≡ parse_digits 0 (c ∷ s)
unfolding parse_u16
parse_u16-digits c [] d = refl
parse_u16-digits c (e ∷ s) d = rw (digit_no c b'+' d.0 (inl (omega arith)), parse_u16)

snoc_cons : (xs : Text) (x : ℕ) → (c : ℕ) × (s : Text) × (xs ++ (x ∷ []) ≡ c ∷ s)
snoc_cons [] x = (x, [], refl)
snoc_cons (y ∷ xs) x = (y, xs ++ (x ∷ []), refl)

digits_from-cons : (fuel n : ℕ) → (c : ℕ) × (s : Text) × (digits_from (suc fuel) n ≡ c ∷ s)
unfolding digits_from
digits_from-cons fuel n = elim (Bool-cases (ltb n 10)) [
  | inl e ↦ rw (e, digits_from) (48 + n, [], refl)
  | inr e ↦ rw (e, digits_from) (snoc_cons (digits_from fuel (n / 10)) (48 + n % 10))
]

-- The decimal digits of a port are read back.
parse_u16-decimal : (n : ℕ) → n < 2 ^ 16 → parse_u16 (decimal n) ≡ some n
unfolding decimal
parse_u16-decimal n h =
    let (c, s, e) = digits_from-cons 19 n in
    ap parse_u16 e
    ∙ parse_u16-digits c s (subst (All IsDigit) e (digits_from-IsDigit 20 n))
    ∙ ap (parse_digits 0) (sym e)
    ∙ parse_digits-digits_from 20 n (omega (arith, h)) h (omega arith)

decimal-IsDigit : (n : ℕ) → All IsDigit (decimal n)
unfolding decimal
decimal-IsDigit n = digits_from-IsDigit 20 n

parse_host_port-pretty :
    (p : Protocol) (host : Text) (port : ℕ)
    → port < 2 ^ 16
    → parse_host_port p (host ++ (b':' ∷ decimal port))
      ≡ ok (record { host = host; port = port; protocol = p })
unfolding parse_host_port
parse_host_port-pretty p host port h =
    rw
      (
        rsplit_colon-append host (decimal port) (decimal-IsDigit port),
        parse_host_port,
        parse_u16-decimal port h,
      )
      refl

-- The connection that `parse` can give: a serial device has no port.
abbrev pub port_of : Protocol → ℕ → ℕ
port_of serial port = 0
port_of _ port = port

-- Parsing the text of a connection with a port below 2^16 gives the connection back, for any
-- host, one with colons included; the port of a serial device, which the text does not have, is
-- given as 0.
pub parse-pretty :
    (c : Connection)
    → c.port < 2 ^ 16
    → parse (pretty c)
      ≡ ok (record { host = c.host; port = port_of c.protocol c.port; protocol = c.protocol })
unfolding parse pretty
parse-pretty c h = of_protocol c.protocol c.host c.port h
  where
    of_protocol :
        (p : Protocol) (host : Text) (port : ℕ)
        → port < 2 ^ 16
        → parse (pretty_with p host port)
          ≡ ok (record { host = host; port = port_of p port; protocol = p })
    of_protocol tcp host port h = parse_host_port-pretty tcp host port h
    of_protocol udp host port h = parse_host_port-pretty udp host port h
    of_protocol serial host port h = refl
