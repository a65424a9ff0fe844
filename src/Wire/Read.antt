-- ===== src/Wire/Read.antt =====
-- viewer/crates/btelem-wire/src/lib.rs: what the readers give where a word or a name stands in the
-- buffer.
use btelem.Prelude.{
  ℕ, zero, suc, ◌+◌, ◌^◌, ◌≤◌, ◌<◌, ◌≡◌, refl, sym, ap, ◌∙◌, true, List, [], ◌∷◌, ◌++◌, Text, ok,
  err, arith, ◌-◌, ◌≢◌, length, take-append, replicate, length-replicate, length-append, get_or,
  to_le, from_le-to_le, At, At-fits, slice-At, get_or-drop, All, add-zero,
}
use btelem.Wire.{short, need, read_u8, read_u16, read_u32, read_u64, read_cstr, nul_position}
use btelem.Wire.Utf8.{is_utf8}

pub need_fits : (buf : List ℕ) (n : ℕ) → n ≤ length buf → need buf n ≡ ok tt
unfolding need
need_fits buf n h = ground arith

pub need_short : (buf : List ℕ) (n : ℕ) → length buf < n → need buf n ≡ err (short n (length buf))
unfolding need
need_short buf n h = ground arith

module _ {buf : List ℕ} {off : ℕ} where
  byte-At :
      {x : List ℕ} (a : At buf off x) (k : ℕ) → get_or buf (off + k) 0 ≡ get_or (x ++ a.rest) k 0
  byte-At a k = get_or-drop buf off k 0 ∙ ap (λ l. get_or l k 0) a.here

  byte_here : {x : List ℕ} (a : At buf off x) → get_or buf off 0 ≡ get_or (x ++ a.rest) 0 0
  byte_here a = ap (λ k. get_or buf k 0) (sym (add-zero off)) ∙ byte-At a 0

  pub read_u8-At : (b : ℕ) → At buf off (b ∷ []) → read_u8 buf off ≡ ok b
  unfolding read_u8
  read_u8-At b a = rw (need_fits buf (off + 1) (At-fits a (omega arith))) (ap ok (byte_here a))

  pub read_u16-At : (v : ℕ) → v < 2 ^ 16 → At buf off (to_le 2 v) → read_u16 buf off ≡ ok v
  unfolding read_u16
  read_u16-At v h a =
      rw (need_fits buf (off + 2) (At-fits a (omega arith)))
        (ap ok (omega (arith, byte_here a, byte-At a 1)))

  pub read_u32-At : (v : ℕ) → v < 2 ^ 32 → At buf off (to_le 4 v) → read_u32 buf off ≡ ok v
  unfolding read_u32
  read_u32-At v h a =
      rw (need_fits buf (off + 4) (At-fits a (omega arith)))
        (ap ok (omega (arith, byte_here a, byte-At a 1, byte-At a 2, byte-At a 3)))

  pub read_u64-At : (v : ℕ) → v < 2 ^ 64 → At buf off (to_le 8 v) → read_u64 buf off ≡ ok v
  unfolding read_u64
  read_u64-At v h a =
      rw (need_fits buf (off + 8) (At-fits a (omega arith)), slice-At 8 refl a)
        (ap ok (from_le-to_le 8 v h))

-- A name of the wire: its bytes, then zeros up to the size of the field.
abbrev pub padded_name : ℕ → Text → List ℕ
padded_name max name = name ++ replicate (max - length name) 0

-- A name without a NUL, valid UTF-8, that fits its field.
abbrev pub IsName : ℕ → Text → Type 0
IsName max name = (length name ≤ max) × All (λ b. b ≢ 0) name × (is_utf8 name ≡ true)

pub length-padded_name :
    (max : ℕ) (name : Text) → length name ≤ max → length (padded_name max name) ≡ max
length-padded_name max name h = omega (
  arith,
  length-append name (replicate (max - length name) 0),
  length-replicate (max - length name) (let z : ℕ = 0 in z),
)

pub nul_position-zeros :
    (n : ℕ) (x : Text) → All (λ b. b ≢ 0) x → nul_position (x ++ replicate n 0) ≡ length x
unfolding nul_position
nul_position-zeros zero [] h = refl
nul_position-zeros (suc n) [] h = refl
nul_position-zeros n (b ∷ x) h = ground (arith, h.0, nul_position-zeros n x h.1)

pub read_cstr-At :
    {buf : List ℕ} {off : ℕ} (max : ℕ) (name : Text)
    → 0 < max
    → IsName max name
    → At buf off (padded_name max name)
    → read_cstr buf off max ≡ ok name
unfolding read_cstr
read_cstr-At {buf} {off} max name pos n a =
    let len = length-padded_name max name n.0 in
    rw
      (
        need_fits buf (off + max) (omega (arith, At-fits a (omega arith))),
        slice-At max len a,
        nul_position-zeros (max - length name) name n.1,
        take-append name (replicate (max - length name) 0),
        n.2,
      )
      refl
