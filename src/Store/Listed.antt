-- ===== src/Store/Listed.antt =====
-- Membership in what a query of src/store.rs lists: ORDER BY and SELECT keep it.
use termux_stacks.Prelude.{◌≡◌, refl, Bool, ◌&&◌, ◌||◌, List, [], ◌∷◌, any, arith}
use termux_stacks.Ordered.Map.{BTreeMap}
use termux_stacks.Store.Sql.{select, exists}
use termux_stacks.Store.Rows.{insert_by, sort_by}

module _ {A : Type 0} where
  pub any-insert_by :
      (p : A → Bool) (le : A → A → Bool) (x : A) (ys : List A)
      → any p (insert_by le x ys) ≡ (p x || any p ys)
  unfolding insert_by
  any-insert_by p le x [] = refl
  any-insert_by p le x (y ∷ ys) = ground (arith, any-insert_by p le x ys)

  pub any-sort_by :
      (p : A → Bool) (le : A → A → Bool) (xs : List A) → any p (sort_by le xs) ≡ any p xs
  unfolding sort_by
  any-sort_by p le [] = refl
  any-sort_by p le (x ∷ xs) =
      ground (arith, any-sort_by p le xs, any-insert_by p le x (sort_by le xs))

pub any-select :
    {K V A : Type 0} (q : A → Bool) (p : K → V → Bool) (f : K → V → A) (m : BTreeMap K V)
    → any q (select p f m) ≡ exists (λ k v. p k v && q (f k v)) m
unfolding select exists
any-select q p f [] = refl
any-select q p f ((k, v) ∷ m) = ground (arith, any-select q p f m)
