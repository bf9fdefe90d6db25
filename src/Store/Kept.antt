-- ===== src/Store/Kept.antt =====
-- Tables of src/store.rs compared row by row, before and after.
use termux_stacks.Prelude.{
  ◌≡◌, Bool, true, false, [], ◌∷◌, Option, none, some, if◌then◌else◌, Option-cases, Bool-cases, inl,
  inr, All, arith,
}
use termux_stacks.Ordered.Key.{Key, text_key, nat_key, pair_key, ◌==◌, ==_iff}
use termux_stacks.Ordered.Map.{get, insert, contains_key, BTreeMap}
use termux_stacks.Ordered.MapLaws.{get-insert}
use termux_stacks.Store.Sql.{update_row, update_where}

-- The row stays, related to what it was.
abbrev pub RowKept : {V : Type 0} → (V → V → Type 0) → Option V → Option V → Type 0
RowKept P none after = Unit
RowKept P (some v) none = ⊥
RowKept P (some v) (some w) = P v w

pub RowKept-map :
    {V : Type 0} {P Q : V → V → Type 0}
    → ((v w : V) → P v w → Q v w)
    → (row after : Option V) → RowKept P row after
    → RowKept Q row after
RowKept-map h none after p = tt
RowKept-map h (some v) none p = elim p [ ]
RowKept-map h (some v) (some w) p = h v w p

module _ {V : Type 0} (P : V → V → Type 0) where
  RowKept-refl : ((v : V) → P v v) → (row : Option V) → RowKept P row row
  RowKept-refl h none = tt
  RowKept-refl h (some v) = h v

  RowKept-trans :
      ((u v w : V) → P u v → P v w → P u w)
      → (a b c : Option V) → RowKept P a b
      → RowKept P b c
      → RowKept P a c
  RowKept-trans h none b c p q = tt
  RowKept-trans h (some u) none c p q = elim p [ ]
  RowKept-trans h (some u) (some v) none p q = elim q [ ]
  RowKept-trans h (some u) (some v) (some w) p q = h u v w p q

module _ {K V : Type 0} ⦃o : Key K⦄ (P : V → V → Type 0) where
  abbrev pub TableKept : BTreeMap K V → BTreeMap K V → Type 0
  TableKept m after = (k : K) → RowKept P (get k m) (get k after)

  RowKept-insert :
      (h : (v : V) → P v v) (k j : K) (w : V) (m : BTreeMap K V)
      → RowKept P (get k m) (some w)
      → RowKept P (get j m) (if j == k then some w else get j m)
  RowKept-insert h k j w m p = elim (Bool-cases (j == k)) [
    | inl e ↦ rw (e, (==_iff j k).0 e) p
    | inr e ↦ rw e (RowKept-refl P h (get j m))
  ]

  pub insert-TableKept :
      (h : (v : V) → P v v) (k : K) (w : V) (m : BTreeMap K V)
      → RowKept P (get k m) (some w)
      → TableKept m (insert k w m)
  insert-TableKept h k w m p j = rw (get-insert j k w m) (RowKept-insert h k j w m p)

  -- A row that is not there yet.
  pub insert_new-TableKept :
      (h : (v : V) → P v v) (k : K) (w : V) (m : BTreeMap K V)
      → contains_key k m ≡ false
      → TableKept m (insert k w m)
  unfolding contains_key
  insert_new-TableKept h k w m e = insert-TableKept h k w m (ground arith)

  pub update_where-TableKept :
      (h : (v : V) → P v v) (p : K → V → Bool) (f : V → V)
      → ((v : V) → P v (f v))
      → (m : BTreeMap K V) → TableKept m (update_where p f m)
  unfolding get update_where
  update_where-TableKept h p f hf [] j = tt
  update_where-TableKept h p f hf ((k, v) ∷ m) j =
      ground (arith, update_where-TableKept h p f hf m j, h v, hf v)

module _ {K V : Type 0} ⦃o : Key K⦄ (P : V → V → Type 0) where
  pub TableKept-refl : ((v : V) → P v v) → (m : BTreeMap K V) → TableKept P m m
  TableKept-refl h m k = RowKept-refl P h (get k m)

  pub TableKept-trans :
      ((u v w : V) → P u v → P v w → P u w)
      → (a b c : BTreeMap K V) → TableKept P a b
      → TableKept P b c
      → TableKept P a c
  TableKept-trans h a b c p q k = RowKept-trans P h (get k a) (get k b) (get k c) (p k) (q k)

module _ {K V : Type 0} (P : V → Type 0) where
  abbrev pub AllRows : BTreeMap K V → Type 0
  AllRows m = All (λ e. P e.1) m

  pub update_where-AllRows :
      (p : K → V → Bool) (f : V → V)
      → ((v : V) → P v → P (f v))
      → (m : BTreeMap K V) → AllRows m
      → AllRows (update_where p f m)
  unfolding update_where
  update_where-AllRows p f hf [] a = tt
  update_where-AllRows p f hf ((k, v) ∷ m) (a, rest) = elim (Bool-cases (p k v)) [
    | inl e ↦ rw e (hf v a, update_where-AllRows p f hf m rest)
    | inr e ↦ rw e (a, update_where-AllRows p f hf m rest)
  ]

module _ {K V : Type 0} ⦃o : Key K⦄ (P : V → Type 0) where
  pub insert-AllRows :
      (k : K) (w : V) (m : BTreeMap K V) → P w → AllRows P m → AllRows P (insert k w m)
  unfolding insert
  insert-AllRows k w [] p a = (p, tt)
  insert-AllRows k w ((j, v) ∷ m) p (q, a) = ground (arith, insert-AllRows k w m p a)

  pub get-AllRows : (k : K) (m : BTreeMap K V) (v : V) → get k m ≡ some v → AllRows P m → P v
  unfolding get
  get-AllRows k [] v e a = ground arith
  get-AllRows k ((j, w) ∷ m) v e (q, a) = ground (arith, get-AllRows k m v)

module _ {K V : Type 0} ⦃o : Key K⦄ where
  -- An update by primary key, for a relation of the row before and after.
  pub update_row-TableKept :
      (P : V → V → Type 0) (h : (v : V) → P v v) (k : K) (guard : V → Bool) (f : V → V)
      → ((v : V) → guard v ≡ true → P v (f v))
      → (m : BTreeMap K V) → TableKept P m (update_row k guard f m).1
  unfolding update_row
  update_row-TableKept P h k guard f hf m = elim (Option-cases (get k m)) [
    | inl e ↦ rw (update_row, e) (TableKept-refl P h m)
    | inr (v, e) ↦ elim (Bool-cases (guard v)) [
      | inl g ↦ rw (update_row, e, g) (insert-TableKept P h k (f v) m (rw e (hf v g)))
      | inr g ↦ rw (update_row, e, g) (TableKept-refl P h m)
    ]
  ]

  pub update_row-AllRows :
      (P : V → Type 0) (k : K) (guard : V → Bool) (f : V → V) (m : BTreeMap K V)
      → ((v : V) → get k m ≡ some v → guard v ≡ true → P v → P (f v))
      → AllRows P m
      → AllRows P (update_row k guard f m).1
  unfolding update_row
  update_row-AllRows P k guard f m hf a = elim (Option-cases (get k m)) [
    | inl e ↦ rw (update_row, e) a
    | inr (v, e) ↦ elim (Bool-cases (guard v)) [
      | inl g ↦
          rw (update_row, e, g) (insert-AllRows P k (f v) m (hf v e g (get-AllRows P k m v e a)) a)
      | inr g ↦ rw (update_row, e, g) a
    ]
  ]
