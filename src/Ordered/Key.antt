-- ===== src/Ordered/Key.antt =====
-- Keys of ordered collections: a comparison with its laws. Instances: numbers, texts, pairs.
-- A text is the list of its code points, compared in that order, which is also the order of the
-- UTF-8 bytes that Rust compares.
use Prim.Native.Char.{code}
use Prim.Native.String.{String}
use termux_stacks.Prelude.{
  ℕ, compare, Ordering, ◌≡◌, refl, ◌↔◌, Bool, true, false, ◌&&◌, List, [], ◌∷◌, arith,
}

pub record Key (K : Type 0) : Type 0 where
  pub cmp : K → K → Ordering
  pub cmp-eq_iff : (a b : K) → (cmp a b ≡ Ordering.eq) ↔ (a ≡ b)
  pub cmp-gt : (a b : K) → cmp a b ≡ Ordering.gt → cmp b a ≡ Ordering.lt
  pub cmp_trans :
      (a b c : K) → cmp a b ≡ Ordering.lt → cmp b c ≡ Ordering.lt → cmp a c ≡ Ordering.lt

infix 50 ◌==◌
abbrev pub ◌==◌ : {K : Type 0} ⦃o : Key K⦄ → K → K → Bool
◌==◌ ⦃o⦄ a b = elim (o.cmp a b) [ Ordering.eq ↦ true | _ ↦ false ]

module _ {K : Type 0} ⦃o : Key K⦄ where
  pub ==_iff : (a b : K) → ((a == b) ≡ true) ↔ (a ≡ b)
  ==_iff a b = ground (arith, o.cmp-eq_iff a b)

  pub ==_refl : (a : K) → (a == a) ≡ true
  ==_refl a = (==_iff a a).1 refl

  pub cmp_irrefl : (a : K) → o.cmp a a ≡ Ordering.lt → ⊥
  cmp_irrefl a h = ground (arith, (o.cmp-eq_iff a a).1 refl)

-- A text, by its code points.
abbrev pub Text : Type 0
Text = List ℕ

-- The text that a literal stands for.
abbrev pub text : String → Text
text String.[] = []
text (String.◌∷◌ c s) = code c ∷ text s

unfoldable pub text_cmp : Text → Text → Ordering
text_cmp [] [] = Ordering.eq
text_cmp [] (b ∷ t) = Ordering.lt
text_cmp (a ∷ s) [] = Ordering.gt
text_cmp (a ∷ s) (b ∷ t) = elim (compare a b) [
  | Ordering.lt ↦ Ordering.lt
  | Ordering.eq ↦ text_cmp s t
  | Ordering.gt ↦ Ordering.gt
]

pub text_cmp-eq : (a b : Text) → text_cmp a b ≡ Ordering.eq → a ≡ b
unfolding text_cmp
text_cmp-eq [] [] h = refl
text_cmp-eq [] (b ∷ t) h = ground arith
text_cmp-eq (a ∷ s) [] h = ground arith
text_cmp-eq (a ∷ s) (b ∷ t) h = ground (arith, text_cmp-eq s t)

pub text_cmp_refl : (a : Text) → text_cmp a a ≡ Ordering.eq
unfolding text_cmp
text_cmp_refl [] = refl
text_cmp_refl (a ∷ s) = ground (arith, text_cmp_refl s)

pub text_cmp-eq_iff : (a b : Text) → (text_cmp a b ≡ Ordering.eq) ↔ (a ≡ b)
text_cmp-eq_iff a b = (text_cmp-eq a b, λ e. ground (arith, text_cmp_refl a))

pub text_cmp-gt : (a b : Text) → text_cmp a b ≡ Ordering.gt → text_cmp b a ≡ Ordering.lt
unfolding text_cmp
text_cmp-gt [] [] h = ground arith
text_cmp-gt [] (b ∷ t) h = ground arith
text_cmp-gt (a ∷ s) [] h = refl
text_cmp-gt (a ∷ s) (b ∷ t) h = ground (arith, text_cmp-gt s t)

pub text_cmp_trans :
    (a b c : Text)
    → text_cmp a b ≡ Ordering.lt
    → text_cmp b c ≡ Ordering.lt
    → text_cmp a c ≡ Ordering.lt
unfolding text_cmp
text_cmp_trans [] [] c h k = ground arith
text_cmp_trans [] (b ∷ t) [] h k = ground arith
text_cmp_trans [] (b ∷ t) (c ∷ u) h k = refl
text_cmp_trans (a ∷ s) [] c h k = ground arith
text_cmp_trans (a ∷ s) (b ∷ t) [] h k = ground arith
text_cmp_trans (a ∷ s) (b ∷ t) (c ∷ u) h k = ground (arith, text_cmp_trans s t u)

instance abbrev pub text_key : Key Text
text_key = record {
  cmp = text_cmp;
  cmp-eq_iff = text_cmp-eq_iff;
  cmp-gt = text_cmp-gt;
  cmp_trans = text_cmp_trans;
}

pub nat_cmp-eq_iff : (a b : ℕ) → (compare a b ≡ Ordering.eq) ↔ (a ≡ b)
nat_cmp-eq_iff a b = ground arith

pub nat_cmp-gt : (a b : ℕ) → compare a b ≡ Ordering.gt → compare b a ≡ Ordering.lt
nat_cmp-gt a b h = ground arith

pub nat_cmp_trans :
    (a b c : ℕ) → compare a b ≡ Ordering.lt → compare b c ≡ Ordering.lt → compare a c ≡ Ordering.lt
nat_cmp_trans a b c h k = ground arith

instance abbrev pub nat_key : Key ℕ
nat_key = record {
  cmp = compare;
  cmp-eq_iff = nat_cmp-eq_iff;
  cmp-gt = nat_cmp-gt;
  cmp_trans = nat_cmp_trans;
}

-- Pairs compare by their first parts, then by their second parts.
module _ {A B : Type 0} ⦃oa : Key A⦄ ⦃ob : Key B⦄ where
  unfoldable pub pair_cmp : A × B → A × B → Ordering
  pair_cmp p q = elim (oa.cmp p.0 q.0) [
    | Ordering.lt ↦ Ordering.lt
    | Ordering.eq ↦ ob.cmp p.1 q.1
    | Ordering.gt ↦ Ordering.gt
  ]

  pub pair_cmp-eq_iff : (p q : A × B) → (pair_cmp p q ≡ Ordering.eq) ↔ (p ≡ q)
  unfolding pair_cmp
  pair_cmp-eq_iff p q = ground (arith, oa.cmp-eq_iff p.0 q.0, ob.cmp-eq_iff p.1 q.1)

  pub pair_cmp-gt : (p q : A × B) → pair_cmp p q ≡ Ordering.gt → pair_cmp q p ≡ Ordering.lt
  unfolding pair_cmp
  pair_cmp-gt p q h =
      ground
        (arith, oa.cmp-gt p.0 q.0, ob.cmp-gt p.1 q.1, oa.cmp-eq_iff p.0 q.0, oa.cmp-eq_iff q.0 p.0)

  pub pair_cmp_trans :
      (p q r : A × B)
      → pair_cmp p q ≡ Ordering.lt
      → pair_cmp q r ≡ Ordering.lt
      → pair_cmp p r ≡ Ordering.lt
  unfolding pair_cmp
  pair_cmp_trans p q r h k = ground (
    arith,
    oa.cmp_trans p.0 q.0 r.0,
    ob.cmp_trans p.1 q.1 r.1,
    oa.cmp-eq_iff p.0 q.0,
    oa.cmp-eq_iff q.0 r.0,
    oa.cmp-eq_iff p.0 r.0,
  )

  instance abbrev pub pair_key : Key (A × B)
  pair_key = record {
    cmp = pair_cmp;
    cmp-eq_iff = pair_cmp-eq_iff;
    cmp-gt = pair_cmp-gt;
    cmp_trans = pair_cmp_trans;
  }

  -- A test of pairs is a test of both parts.
  pub pair_==_lem : (p q : A × B) → (p == q) ≡ (p.0 == q.0 && p.1 == q.1)
  unfolding pair_cmp
  pair_==_lem p q = ground arith
