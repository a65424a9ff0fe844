-- ===== src/Wire/Value/Strings.antt =====
-- viewer/crates/btelem-wire/src/value.rs: the text that `field_as_string` reads.
use btelem.Prelude.{
  ℕ, ◌+◌, ◌-◌, ◌≤◌, ◌<◌, ◌≡◌, ap, subst, some-injective, inl, inr, true, List, some, Text, arith,
  ltb, ltb_no, ltb-false, Bool-cases, length, take-append, replicate, slice-At, At, At-fits,
}
use btelem.Wire.Utf8.{is_utf8}
use btelem.Wire.Utf8.Lossy.{is_utf8-from_utf8_lossy, from_utf8_lossy_valid}
use btelem.Wire.Read.{padded_name, IsName, length-padded_name, nul_position-zeros}
use btelem.Wire.Schema.{FieldDef}
use btelem.Wire.Value.{is_string, field_as_string}

-- Whatever the payload holds, the text that `field_as_string` gives is valid UTF-8, and it gives one
-- only for a string field that lies within the payload.
pub field_as_string-is_utf8 :
    (f : FieldDef) (payload : List ℕ) (s : Text)
    → field_as_string f payload ≡ some s
    → (is_utf8 s ≡ true) × (is_string f.ty ≡ true) × (f.offset + f.size ≤ length payload)
unfolding field_as_string
field_as_string-is_utf8 f payload s e = elim (Bool-cases (is_string f.ty)) [
  | inr t ↦ absurd (cc (rw (t, field_as_string) at e))
  | inl t ↦ elim (Bool-cases (ltb (length payload) (f.offset + f.size))) [
    | inl l ↦ absurd (cc (rw (t, l, field_as_string) at e))
    | inr l ↦ (
      subst (λ s. is_utf8 s ≡ true) (some-injective (rw (t, l, field_as_string) at e))
          (is_utf8-from_utf8_lossy _),
      t,
      ltb-false (length payload) (f.offset + f.size) l,
    )
  ]
]

-- A string field whose bytes are a text without NUL, filled up with NULs, is read as that text.
pub field_as_string-padded_name :
    (f : FieldDef) (payload : List ℕ) (name : Text)
    → is_string f.ty ≡ true
    → 0 < f.size
    → IsName f.size name
    → At payload f.offset (padded_name f.size name)
    → field_as_string f payload ≡ some name
unfolding field_as_string
field_as_string-padded_name f payload name t pos n a =
    let len = length-padded_name f.size name n.0 in
    rw
      (
        t,
        field_as_string,
        ltb_no (length payload) (f.offset + f.size)
            (omega (arith, len, At-fits a (omega (arith, len, pos)))),
        slice-At f.size len a,
        nul_position-zeros (f.size - length name) name n.1,
        take-append name (replicate (f.size - length name) 0),
      )
      (ap some (from_utf8_lossy_valid name n.2))
