-- ===== src/Engine/Arguments.antt =====
-- The binds that the arguments of `run` spell (src/engine.rs: `run`).
use termux_stacks.Prelude.{
  ℕ, ◌≡◌, refl, ap, subst, false, List, [], ◌∷◌, ◌++◌, map, Option, some, inl, inr, arith, any,
  Bool-cases, Option-cases, if◌then◌else◌,
}
use termux_stacks.Prelude.Outcome.{Outcome, done, failed, ◌>>=◌}
use termux_stacks.Ordered.Key.{Text, text, nat_key, ◌==◌}
use termux_stacks.Engine.{Error, Bind, bind_arguments}

-- An argument of `--bind` as the command reads it: cut at the first colon.
unfoldable pub cut : Text → Text × Text
cut [] = ([], [])
cut (c ∷ s) = let (front, back) = cut s in if c == b':' then ([], s) else (c ∷ front, back)

-- The pairs of a list of `--bind` options.
unfoldable pub read_binds : List Text → List (Text × Text)
unfolding cut
read_binds [] = []
read_binds (option ∷ []) = []
read_binds (option ∷ argument ∷ rest) = cut argument ∷ read_binds rest

cut-colon :
    (source target : Text)
    → any (λ c. c == b':') source ≡ false
    → cut (source ++ b':' ∷ target) ≡ (source, target)
unfolding cut
cut-colon [] target h = refl
cut-colon (c ∷ s) target h = ground (arith, h, cut-colon s target)

tail_cases :
    (o : Outcome Error (List Text)) (args front : List Text)
    → (do rest ← o; done (front ++ rest)) ≡ done args
    → (rest : List Text) × (o ≡ done rest) × (front ++ rest ≡ args)
tail_cases (done rest) args front h = (rest, refl, ground (arith, h))
tail_cases (failed e) args front h = absurd (ground (arith, h))

abbrev pub readable : Text × Text → Option Text × Text
readable p = (some p.0, p.1)

abbrev pub spelled : (List ℕ → Option Text) → Bind → Option Text × Text
spelled from_utf8 b = (from_utf8 b.source, b.target)

-- Binds that are accepted are not mixed up: cut at their first colons, as the command reads them,
-- the arguments give back the source and the target of each bind, in order.
pub read_binds-bind_arguments :
    (from_utf8 : List ℕ → Option Text) (binds : List Bind) (args : List Text)
    → bind_arguments from_utf8 binds ≡ done args
    → map readable (read_binds args) ≡ map (spelled from_utf8) binds
unfolding bind_arguments read_binds
read_binds-bind_arguments from_utf8 [] args h = let e : args ≡ [] = ground (arith, h) in rw e refl
read_binds-bind_arguments from_utf8 (b ∷ binds) args h = elim (Option-cases (from_utf8 b.source)) [
  | inl bad ↦ absurd (ground (arith, h, bad))
  | inr (source, e) ↦ elim (Bool-cases (any (λ c. c == b':') source)) [
    | inl colon ↦ absurd (ground (arith, h, e, colon))
    | inr plain ↦
        let (rest, others, same) =
          tail_cases (bind_arguments from_utf8 binds) args
            (text "--bind" ∷ (source ++ b':' ∷ b.target) ∷ [])
            (rw (e, plain, bind_arguments) at h) in
        subst (λ list. map readable (read_binds list) ≡ map (spelled from_utf8) (b ∷ binds)) same
          (rw (cut-colon source b.target plain, e)
            (ap (λ ps. (some source, b.target) ∷ ps)
              (read_binds-bind_arguments from_utf8 binds rest others)))
  ]
]
