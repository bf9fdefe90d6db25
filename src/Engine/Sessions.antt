-- ===== src/Engine/Sessions.antt =====
-- The sessions that the output of `ps --quiet` lists (src/engine.rs: `parse_session_output`).
use termux_stacks.Prelude.{
  ℕ, ◌+◌, ◌-◌, ◌*◌, ◌≤◌, ◌≡◌, ◌↔◌, refl, sym, ap, ◌∙◌, subst, true, false, List, [], ◌∷◌, ◌++◌,
  Option, some, inl, inr, arith, all, is_empty, Option-cases, append_assoc, append-nil,
}
use termux_stacks.Prelude.Outcome.{done}
use termux_stacks.Ordered.Key.{Text, nat_key, ==_iff}
use termux_stacks.Ordered.Set.{BTreeSet, contains, IsDistinct, insert, contains-insert}
use termux_stacks.Text.{is_ascii_digit}
use termux_stacks.Manifest.Literal.{decimal, decimal_from}
use termux_stacks.Engine.{text_lines, sessions_from, parse_session_output}

-- A line is blank, or the decimal digits of a number from 1 to 2 ^ 32 - 1.
pub data Lists : List Text → List ℕ → Type 0 where
  no_more : Lists [] []
  blank : {lines : List Text} {ns : List ℕ} → Lists lines ns → Lists ([] ∷ lines) ns
  session :
      {line : Text} {lines : List Text} {n : ℕ} {ns : List ℕ}
      → decimal line ≡ some n
      → 1 ≤ n
      → n ≤ 4294967295
      → Lists lines ns
      → Lists (line ∷ lines) (n ∷ ns)

abbrev IsFresh : BTreeSet ℕ → List ℕ → Type 0
IsFresh u [] = Unit
IsFresh u (n ∷ ns) = (contains n u ≡ false) × IsFresh (insert n u) ns

digits_of : (acc : ℕ) (s : Text) (n : ℕ) → decimal_from acc s ≡ some n → all is_ascii_digit s ≡ true
unfolding decimal_from
digits_of acc [] n h = refl
digits_of acc (c ∷ s) n h = ground (arith, h, digits_of (acc * 10 + (c - b'0')) s n)

decimal-digits :
    (s : Text) (n : ℕ) → decimal s ≡ some n → (all is_ascii_digit s ≡ true) × (is_empty s ≡ false)
unfolding decimal
decimal-digits [] n h = absurd (ground (arith, h))
decimal-digits (c ∷ s) n h = (digits_of 0 (c ∷ s) n h, refl)

-- Fresh numbers stand once, and none of them is in the set.
fresh-IsDistinct :
    (u : BTreeSet ℕ) (ns : List ℕ)
    → IsFresh u ns
    → ((d : ℕ) → contains d u ≡ true → contains d ns ≡ false) × IsDistinct ns
fresh-IsDistinct u [] f = (λ d m. refl, tt)
fresh-IsDistinct u (n ∷ ns) (p, f) =
    let (apart, distinct) = fresh-IsDistinct (insert n u) ns f in
    (
      λ d m. ground (arith, p, m, apart d, contains-insert d n u, ==_iff d n),
      (ground (arith, apart n, contains-insert n n u, ==_iff n n), distinct),
    )

distinct-IsFresh :
    (u : BTreeSet ℕ) (ns : List ℕ)
    → ((d : ℕ) → contains d u ≡ true → contains d ns ≡ false)
    → IsDistinct ns
    → IsFresh u ns
distinct-IsFresh u [] apart distinct = tt
distinct-IsFresh u (n ∷ ns) apart (p, distinct) = (
  ground (arith, apart n, ==_iff n n),
  distinct-IsFresh (insert n u) ns
      (λ d m. ground (arith, m, p, apart d, contains-insert d n u, ==_iff d n)) distinct,
)

sessions_from-done :
    (lines : List Text) (acc : List ℕ) (u : BTreeSet ℕ) (out : List ℕ)
    → sessions_from lines acc u ≡ done out
    → (ns : List ℕ) × (out ≡ acc ++ ns) × Lists lines ns × IsFresh u ns
unfolding sessions_from
sessions_from-done [] acc u out h = ([], ground (arith, h, append-nil acc), no_more, tt)
sessions_from-done ([] ∷ lines) acc u out h =
    let (ns, e, listed, fresh) = sessions_from-done lines acc u out h in
    (ns, e, blank listed, fresh)
sessions_from-done ((c ∷ s) ∷ lines) acc u out h = elim (Option-cases (decimal (c ∷ s))) [
  | inl bad ↦ absurd (ground (arith, h, bad))
  | inr (n, value) ↦
      let rest : sessions_from lines (acc ++ n ∷ []) (insert n u) ≡ done out =
        ground (arith, h, value) in
      let (ns, e, listed, fresh) = sessions_from-done lines (acc ++ n ∷ []) (insert n u) out rest in
      (
        n ∷ ns,
        e ∙ append_assoc acc (n ∷ []) ns,
        session value (ground (arith, h, value)) (ground (arith, h, value)) listed,
        (ground (arith, h, value), fresh),
      )
]

done-sessions_from :
    (lines : List Text) (acc ns : List ℕ) (u : BTreeSet ℕ)
    → Lists lines ns
    → IsFresh u ns
    → sessions_from lines acc u ≡ done (acc ++ ns)
unfolding sessions_from
done-sessions_from _ acc _ u no_more f = ap done (sym (append-nil acc))
done-sessions_from _ acc ns u (blank l) f = done-sessions_from _ acc ns u l f
done-sessions_from _ acc _ u
      (session {line = line} {lines = lines} {n = n} {ns = ns} value low high l) (p, f) =
    ground (
      arith,
      decimal-digits line n value,
      value,
      low,
      high,
      p,
      done-sessions_from lines (acc ++ n ∷ []) ns (insert n u) l f,
      append_assoc acc (n ∷ []) ns,
    )

-- The output is read as a list of sessions exactly if it is UTF-8, each of its lines is blank or
-- the decimal digits of the next session, a number from 1 to 2 ^ 32 - 1, and no session stands
-- twice.
pub parse_session_output_iff :
    (from_utf8 : List ℕ → Option Text) (bytes : List ℕ) (ns : List ℕ)
    → (parse_session_output from_utf8 bytes ≡ done ns) ↔ (
        (stdout : Text) × (from_utf8 bytes ≡ some stdout)
        × Lists (text_lines stdout) ns
        × IsDistinct ns)
unfolding parse_session_output
parse_session_output_iff from_utf8 bytes ns = (
  λ h. elim (Option-cases (from_utf8 bytes)) [
    | inl bad ↦ absurd (ground (arith, h, bad))
    | inr (stdout, e) ↦
        let (found, same, listed, fresh) =
          sessions_from-done (text_lines stdout) [] [] ns (ground (arith, h, e)) in
        (
          stdout,
          e,
          subst (λ l. Lists (text_lines stdout) l) (sym same) listed,
          subst (λ l. IsDistinct l) (sym same) (fresh-IsDistinct [] found fresh).1,
        )
  ],
  λ (stdout, e, listed, distinct).
      rw (e, parse_session_output)
        (done-sessions_from (text_lines stdout) [] ns [] listed
          (distinct-IsFresh [] ns (λ d m. absurd (ground (arith, m))) distinct)),
)
