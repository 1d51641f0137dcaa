-- ===== src/Engine/VerifyEvidence/Exec.antt =====
-- legacy/packages/analysis-engine/src/verify-evidence.ts: the search of a pattern in a text, `exec`.
use content_gap.Prelude.{
  ℕ, suc, ◌+◌, ◌≤◌, List, [], ◌∷◌, ◌++◌, ◌≡◌, inl, inr, some, arith, Option-cases, length,
}
use content_gap.Prelude.Text.{Text, slice}
use content_gap.Prelude.TextLemmas.{slice-suc, slice_zero}
use content_gap.Engine.VerifyEvidence.{Atom, match_here, exec}
use content_gap.Engine.VerifyEvidence.Patterns.{Matches, match_here_sound, match_here_complete}

module _ (p : List Atom) where
  abbrev MatchesAt : Text → ℕ → ℕ → Type 0
  MatchesAt s i n = Matches p (slice s i (i + n)) × (i + n ≤ length s)

  match_at_start : (s : Text) (n : ℕ) → match_here p s ≡ some n → MatchesAt s 0 n
  match_at_start s n f =
      let (a, b) = match_here_sound p s n f in rw (slice_zero s n) (a, omega arith)

  pub exec_sound : (s : Text) (i n : ℕ) → exec p s ≡ some (i, n) → MatchesAt s i n
  unfolding exec
  exec_sound [] i n e = elim (Option-cases (match_here p [])) [
    | inl f ↦ cc (rw (f, exec) at e)
    | inr (m, f) ↦
        let z : i ≡ 0 = ground arith in
        let y : n ≡ m = ground arith in rw (z, y) (match_at_start [] m f)
  ]
  exec_sound (c ∷ s) i n e = elim (Option-cases (match_here p (c ∷ s))) [
    | inr (m, f) ↦
        let z : i ≡ 0 = ground arith in
        let y : n ≡ m = ground arith in rw (z, y) (match_at_start (c ∷ s) m f)
    | inl f ↦ elim (Option-cases (exec p s)) [
      | inl g ↦ cc (rw (f, g, exec) at e)
      | inr ((j, m), g) ↦
          let z : i ≡ suc j = ground arith in
          let y : n ≡ m = ground arith in
          let (a, b) = exec_sound s j m g in rw (z, y) (rw (slice-suc c s j m) a, omega arith)
    ]
  ]

  exec_at_start :
      (s : Text)
      → (n : ℕ) × (match_here p s ≡ some n)
      → (i : ℕ) × (n : ℕ) × (exec p s ≡ some (i, n)) × (i ≤ 0)
  unfolding exec
  exec_at_start [] (n, f) = (0, n, rw (f, exec), omega arith)
  exec_at_start (c ∷ s) (n, f) = (0, n, rw (f, exec), omega arith)

  pub exec_complete :
      (pre w post : Text)
      → Matches p w
      → (i : ℕ) × (n : ℕ) × (exec p (pre ++ (w ++ post)) ≡ some (i, n)) × (i ≤ length pre)
  unfolding exec
  exec_complete [] w post m = exec_at_start (w ++ post) (match_here_complete m post)
  exec_complete (c ∷ pre) w post m = elim (Option-cases (match_here p (c ∷ (pre ++ (w ++ post))))) [
    | inr (n, f) ↦ (0, n, rw (f, exec), omega arith)
    | inl f ↦
        let (i, n, g, le) = exec_complete pre w post m in (suc i, n, rw (f, g, exec), omega arith)
  ]
