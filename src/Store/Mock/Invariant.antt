-- ===== src/Store/Mock/Invariant.antt =====
-- viewer/crates/btelem-store/src/mock.rs: the invariant of the parallel lists, and what the revision
-- tells the viewer, for every sequence of calls.
use btelem.Prelude.{
  ℕ, suc, ◌+◌, ◌%◌, ◌^◌, ◌≡◌, refl, ◌∙◌, ◌⊎◌, inl, inr, List, [], ◌∷◌, ◌++◌, Text, arith, length,
  length-append, length-set, get_elem?, Option-cases,
}
use btelem.Store.Types.{ChannelId, Timestamp, ChannelInfo}
use btelem.Store.Mock.{
  Inner, empty, bump, register, next_id, add_scalar, add_scalar_int, add_state, add_text,
  register_word_bits, push_scalar, push_state, push_text, clear,
}

-- The ids of the channels from index `i` on.
abbrev pub Numbered : ℕ → List ChannelInfo → Type 0
Numbered i [] = Unit {0}
Numbered i (c ∷ cs) = (c.id ≡ i % 2 ^ 32) × Numbered (suc i) cs

-- Every channel has a slot for each kind of sample, and its id is its index.
pub record IsAligned {F : Type 0} (g : Inner F) : Type 0 where
  pub scalars : length g.scalars ≡ length g.channels
  pub states : length g.states ≡ length g.channels
  pub texts : length g.texts ≡ length g.channels
  pub ids : Numbered 0 g.channels

-- One call of a method that writes.
pub data Step {F : Type 0} : Inner F → Inner F → Type 0 where
  adds_scalar : (g : Inner F) (path : Text) → Step g (add_scalar g path).0
  adds_scalar_int : (g : Inner F) (path : Text) → Step g (add_scalar_int g path).0
  adds_state : (g : Inner F) (path : Text) (labels : List Text) → Step g (add_state g path labels).0
  adds_text : (g : Inner F) (path : Text) → Step g (add_text g path).0
  registers_bits :
      (g : Inner F) (w : ChannelId) (bits : List ChannelId) → Step g (register_word_bits g w bits)
  pushes_scalar :
      (g : Inner F) (ch : ChannelId) (t : Timestamp) (v : F) → Step g (push_scalar g ch t v)
  pushes_state :
      (g : Inner F) (ch : ChannelId) (t : Timestamp) (v : ℕ) → Step g (push_state g ch t v)
  pushes_text :
      (g : Inner F) (ch : ChannelId) (t : Timestamp) (v : Text) → Step g (push_text g ch t v)
  clears : (g : Inner F) → Step g (clear g)

pub data Reach {F : Type 0} : Inner F → Type 0 where
  new : Reach empty
  next : {g h : Inner F} → Reach g → Step g h → Reach h

Numbered-append :
    (i : ℕ) (cs : List ChannelInfo) (c : ChannelInfo)
    → Numbered i cs
    → c.id ≡ (i + length cs) % 2 ^ 32
    → Numbered i (cs ++ (c ∷ []))
Numbered-append i [] c n e = (omega arith, tt)
Numbered-append i (d ∷ cs) c n e = (n.0, Numbered-append (suc i) cs c n.1 (omega arith))

module _ {F : Type 0} where
  register-IsAligned :
      (g : Inner F) (c : ChannelInfo) → c.id ≡ next_id g → IsAligned g → IsAligned (register g c)
  register-IsAligned g c e a = record {
    scalars =
        omega
          (arith, a.scalars, length-append g.scalars ([] ∷ []), length-append g.channels (c ∷ []));
    states =
        omega
          (arith, a.states, length-append g.states ([] ∷ []), length-append g.channels (c ∷ []));
    texts =
        omega (arith, a.texts, length-append g.texts ([] ∷ []), length-append g.channels (c ∷ []));
    ids = Numbered-append 0 g.channels c a.ids (omega arith);
  }

  Step-IsAligned : {g h : Inner F} → Step g h → IsAligned g → IsAligned h
  unfolding add_scalar add_scalar_int add_state add_text register_word_bits push_scalar push_state
      push_text clear
  Step-IsAligned (adds_scalar g path) a = register-IsAligned g _ refl a
  Step-IsAligned (adds_scalar_int g path) a = register-IsAligned g _ refl a
  Step-IsAligned (adds_state g path labels) a = register-IsAligned g _ refl a
  Step-IsAligned (adds_text g path) a = register-IsAligned g _ refl a
  Step-IsAligned (registers_bits g w bits) a = record {
    scalars = a.scalars;
    states = a.states;
    texts = a.texts;
    ids = a.ids;
  }
  Step-IsAligned (pushes_scalar g ch t v) a = elim (Option-cases (get_elem? g.scalars ch)) [
    | inl e ↦ rw (e, push_scalar) a
    | inr (buf, e) ↦
        rw (e, push_scalar)
          (record {
            scalars = length-set g.scalars ch _ ∙ a.scalars;
            states = a.states;
            texts = a.texts;
            ids = a.ids;
          })
  ]
  Step-IsAligned (pushes_state g ch t v) a = elim (Option-cases (get_elem? g.states ch)) [
    | inl e ↦ rw (e, push_state) a
    | inr (buf, e) ↦
        rw (e, push_state)
          (record {
            scalars = a.scalars;
            states = length-set g.states ch _ ∙ a.states;
            texts = a.texts;
            ids = a.ids;
          })
  ]
  Step-IsAligned (pushes_text g ch t v) a = elim (Option-cases (get_elem? g.texts ch)) [
    | inl e ↦ rw (e, push_text) a
    | inr (buf, e) ↦
        rw (e, push_text)
          (record {
            scalars = a.scalars;
            states = a.states;
            texts = length-set g.texts ch _ ∙ a.texts;
            ids = a.ids;
          })
  ]
  Step-IsAligned (clears g) a = record { scalars = refl; states = refl; texts = refl; ids = tt }

  -- In every state that calls of the store's methods lead to, each channel has its slot in the
  -- three parallel lists, and its id is its index.
  pub Reach-IsAligned : {g : Inner F} → Reach g → IsAligned g
  Reach-IsAligned new = record { scalars = refl; states = refl; texts = refl; ids = tt }
  Reach-IsAligned (next r s) = Step-IsAligned s (Reach-IsAligned r)

  -- What the viewer can read through channels and samples.
  pub record SameData (g h : Inner F) : Type 0 where
    pub channels : h.channels ≡ g.channels
    pub scalars : h.scalars ≡ g.scalars
    pub states : h.states ≡ g.states
    pub texts : h.texts ≡ g.texts

  -- A call that does not bump the revision leaves the channels and all samples as they were.
  pub Step-revision : {g h : Inner F} → Step g h → (h.revision ≡ bump g.revision) ⊎ SameData g h
  unfolding add_scalar add_scalar_int add_state add_text register_word_bits push_scalar push_state
      push_text clear
  Step-revision (adds_scalar g path) = inl refl
  Step-revision (adds_scalar_int g path) = inl refl
  Step-revision (adds_state g path labels) = inl refl
  Step-revision (adds_text g path) = inl refl
  Step-revision (registers_bits g w bits) =
      inr (record { channels = refl; scalars = refl; states = refl; texts = refl })
  Step-revision (pushes_scalar g ch t v) = elim (Option-cases (get_elem? g.scalars ch)) [
    | inl e ↦ inr (
        rw (e, push_scalar)
          (record { channels = refl; scalars = refl; states = refl; texts = refl }))
    | inr (buf, e) ↦ inl (rw (e, push_scalar))
  ]
  Step-revision (pushes_state g ch t v) = elim (Option-cases (get_elem? g.states ch)) [
    | inl e ↦ inr (
        rw (e, push_state)
          (record { channels = refl; scalars = refl; states = refl; texts = refl }))
    | inr (buf, e) ↦ inl (rw (e, push_state))
  ]
  Step-revision (pushes_text g ch t v) = elim (Option-cases (get_elem? g.texts ch)) [
    | inl e ↦ inr (
        rw (e, push_text) (record { channels = refl; scalars = refl; states = refl; texts = refl }))
    | inr (buf, e) ↦ inl (rw (e, push_text))
  ]
  Step-revision (clears g) = inl refl
