-- ===== src/Engine/VerifyEvidence/Patterns.antt =====
-- The matcher against the relation of a pattern to the texts that it matches, and equality of texts
-- up to white space.
use content_gap.Prelude.{
  ℕ, suc, ◌≤◌, true, false, List, [], ◌∷◌, ◌++◌, ◌≡◌, refl, ap, ◌∙◌, ◌≢◌, inl, inr, Option, some,
  arith, Bool-cases, Option-cases, ◌==◌, ==_iff, length, take,
}
use content_gap.Prelude.Text.{Text, is_space}
use content_gap.Engine.VerifyEvidence.{
  Atom, lit, spaces, add_spaces, pattern_of, spaces_then, match_here,
}

pub data Matches : List Atom → Text → Type 0 where
  nil : Matches [] []
  one : {p : List Atom} {c : ℕ} {w : Text} → Matches p w → Matches (lit c ∷ p) (c ∷ w)
  last :
      {p : List Atom} {c : ℕ} {w : Text}
      → is_space c ≡ true
      → Matches p w
      → Matches (spaces ∷ p) (c ∷ w)
  more :
      {p : List Atom} {c : ℕ} {w : Text}
      → is_space c ≡ true
      → Matches (spaces ∷ p) w
      → Matches (spaces ∷ p) (c ∷ w)

abbrev StartsNoSpaces : List Atom → Type 0
StartsNoSpaces [] = Unit
StartsNoSpaces (lit c ∷ p) = Unit
StartsNoSpaces (spaces ∷ p) = ⊥

-- A pattern that `pattern_of` can give.
abbrev IsPattern : List Atom → Type 0
IsPattern [] = Unit
IsPattern (lit c ∷ p) = (is_space c ≡ false) × IsPattern p
IsPattern (spaces ∷ p) = StartsNoSpaces p × IsPattern p

add_spaces-IsPattern : (p : List Atom) → IsPattern p → IsPattern (add_spaces p)
add_spaces-IsPattern [] h = (tt, tt)
add_spaces-IsPattern (lit c ∷ p) h = (tt, h)
add_spaces-IsPattern (spaces ∷ p) h = h

pattern_of-IsPattern : (s : Text) → IsPattern (pattern_of s)
unfolding pattern_of
pattern_of-IsPattern [] = tt
pattern_of-IsPattern (c ∷ s) = elim (Bool-cases (is_space c)) [
  | inl e ↦ rw e (add_spaces-IsPattern (pattern_of s) (pattern_of-IsPattern s))
  | inr e ↦ rw e (e, pattern_of-IsPattern s)
]

add_spaces-eq : (p : List Atom) → StartsNoSpaces p → add_spaces p ≡ spaces ∷ p
add_spaces-eq [] h = refl
add_spaces-eq (lit c ∷ p) h = refl
add_spaces-eq (spaces ∷ p) h = elim h [ ]

Matches-pattern_of : {p : List Atom} {w : Text} → Matches p w → IsPattern p → pattern_of w ≡ p
unfolding pattern_of
Matches-pattern_of nil h = refl
Matches-pattern_of (one {p} {c} {w} m) h = rw h.0 (ap (◌∷◌ (lit c)) (Matches-pattern_of m h.1))
Matches-pattern_of (last {p} {c} {w} e m) h =
    rw e (ap add_spaces (Matches-pattern_of m h.1) ∙ add_spaces-eq p h.0)
Matches-pattern_of (more {p} {c} {w} e m) h = rw e (ap add_spaces (Matches-pattern_of m h))

add_spaces-Matches :
    (p : List Atom) (c : ℕ) (w : Text)
    → is_space c ≡ true
    → Matches p w
    → Matches (add_spaces p) (c ∷ w)
add_spaces-Matches [] c w e m = last e m
add_spaces-Matches (lit d ∷ p) c w e m = last e m
add_spaces-Matches (spaces ∷ p) c w e m = more e m

pattern_of-Matches : (w : Text) → Matches (pattern_of w) w
unfolding pattern_of
pattern_of-Matches [] = nil
pattern_of-Matches (c ∷ w) = elim (Bool-cases (is_space c)) [
  | inl e ↦ rw e (add_spaces-Matches (pattern_of w) c w e (pattern_of-Matches w))
  | inr e ↦ rw e (one (pattern_of-Matches w))
]

-- A pattern matches exactly the texts that agree with its text up to the lengths of runs of white
-- space and the characters in them.
pub Matches-pattern_of_iff :
    (q w : Text)
    → (Matches (pattern_of q) w → pattern_of w ≡ pattern_of q)
      × (pattern_of w ≡ pattern_of q → Matches (pattern_of q) w)
Matches-pattern_of_iff q w =
    (λ m. Matches-pattern_of m (pattern_of-IsPattern q), λ e. rw (← e) (pattern_of-Matches w))

-- A match of length `n` at the start of `s`.
abbrev pub MatchesTake : List Atom → Text → ℕ → Type 0
MatchesTake p s n = Matches p (take n s) × (n ≤ length s)

spaces_then_sound :
    (p : List Atom) (k : Text → Option ℕ)
    → ((s : Text) (n : ℕ) → k s ≡ some n → MatchesTake p s n)
    → (s : Text) (n : ℕ) → spaces_then k s ≡ some n
    → MatchesTake (spaces ∷ p) s n
unfolding spaces_then
spaces_then_sound p k h [] n e = cc
spaces_then_sound p k h (c ∷ s) n e = elim (Bool-cases (is_space c)) [
  | inr f ↦ cc (rw f at e)
  | inl f ↦ elim (Option-cases (spaces_then k s)) [
    | inr (m, g) ↦
        let z : n ≡ suc m = ground arith in
        let (i, l) = spaces_then_sound p k h s m g in rw z (more f i, omega arith)
    | inl g ↦ elim (Option-cases (k s)) [
      | inl q ↦ cc (rw (f, g, q) at e)
      | inr (m, q) ↦
          let z : n ≡ suc m = ground arith in let (i, l) = h s m q in rw z (last f i, omega arith)
    ]
  ]
]

pub match_here_sound :
    (p : List Atom) (s : Text) (n : ℕ) → match_here p s ≡ some n → MatchesTake p s n
unfolding match_here
match_here_sound [] s n e = let z : n ≡ 0 = ground arith in rw z (nil, omega arith)
match_here_sound (lit c ∷ p) [] n e = cc
match_here_sound (lit c ∷ p) (d ∷ s) n e = elim (Bool-cases (c == d)) [
  | inr f ↦ cc (rw f at e)
  | inl f ↦ elim (Option-cases (match_here p s)) [
    | inl g ↦ cc (rw (f, g) at e)
    | inr (m, g) ↦
        let z : n ≡ suc m = ground arith in
        let (i, l) = match_here_sound p s m g in rw (z, (==_iff c d).0 f) (one i, omega arith)
  ]
]
match_here_sound (spaces ∷ p) s n e = spaces_then_sound p (match_here p) (match_here_sound p) s n e

abbrev pub Succeeds : Option ℕ → Type 0
Succeeds o = (n : ℕ) × (o ≡ some n)

spaces_then_here :
    (k : Text → Option ℕ) (c : ℕ) (s : Text)
    → is_space c ≡ true
    → Succeeds (k s)
    → Succeeds (spaces_then k (c ∷ s))
unfolding spaces_then
spaces_then_here k c s e (n, f) = elim (Option-cases (spaces_then k s)) [
  | inl g ↦ (suc n, rw (e, g, f))
  | inr (m, g) ↦ (suc m, rw (e, g))
]

spaces_then_later :
    (k : Text → Option ℕ) (c : ℕ) (s : Text)
    → is_space c ≡ true
    → Succeeds (spaces_then k s)
    → Succeeds (spaces_then k (c ∷ s))
unfolding spaces_then
spaces_then_later k c s e (m, g) = (suc m, rw (e, g))

pub match_here_complete :
    {p : List Atom} {w : Text} → Matches p w → (post : Text) → Succeeds (match_here p (w ++ post))
unfolding match_here
match_here_complete nil post = (0, refl)
match_here_complete (one {p} {c} {w} m) post =
    let (n, e) = match_here_complete m post in (suc n, rw ((==_iff c c).1 refl, e))
match_here_complete (last {p} {c} {w} e m) post =
    spaces_then_here (match_here p) c (w ++ post) e (match_here_complete m post)
match_here_complete (more {p} {c} {w} e m) post =
    spaces_then_later (match_here p) c (w ++ post) e (match_here_complete m post)

pub pattern_of-ne-nil : (c : ℕ) (s : Text) → pattern_of (c ∷ s) ≢ []
unfolding pattern_of
pattern_of-ne-nil c s e = elim (Bool-cases (is_space c)) [
  | inl f ↦ add_spaces-ne-nil (pattern_of s) (rw f at e)
  | inr f ↦ cc (rw f at e)
]
  where
    add_spaces-ne-nil : (p : List Atom) → add_spaces p ≢ []
    add_spaces-ne-nil [] h = cc
    add_spaces-ne-nil (lit d ∷ p) h = cc
    add_spaces-ne-nil (spaces ∷ p) h = cc
