-- ===== src/Crawler/RateLimiter/Spacing.antt =====
-- legacy/packages/crawler/src/rate-limiter.ts: calls that follow each other are granted apart.
use content_gap.Prelude.{
  ℕ, ◌+◌, ◌≤◌, List, [], ◌∷◌, ◌==◌, ◌≡◌, inl, inr, ◌⊎◌, sym, subst, Bool-cases, All, All-weaken,
  arith,
}
use content_gap.Prelude.Sorting.{IsSorted}
use content_gap.Prelude.Text.{Text, text_eq, text_eq_iff, text_eq_refl}
use content_gap.Crawler.RateLimiter.{NextAllowed, earliest, wait_ms, Call, acquire}

-- Calls that follow each other: each starts when the one before is granted or later, and sleeps as long
-- as it is told, or longer.
pub data IsTimed (min_interval : ℕ) : ℕ → NextAllowed → List Call → Type 0 where
  ended : {time : ℕ} {m : NextAllowed} → IsTimed min_interval time m []
  called :
      {time : ℕ} {m : NextAllowed} {c : Call} {cs : List Call}
      → time ≤ c.now
      → c.now + wait_ms m c.domain c.now ≤ c.granted
      → IsTimed min_interval c.granted (acquire min_interval c m) cs
      → IsTimed min_interval time m (c ∷ cs)

-- Two calls for the same domain are granted at least the interval apart.
abbrev pub AreSpaced : ℕ → Call → Call → Type 0
AreSpaced min_interval a b = a.domain ≡ b.domain → a.granted + min_interval ≤ b.granted

earliest-acquire_same :
    (min_interval : ℕ) (m : NextAllowed) (c : Call)
    → c.granted + min_interval ≤ earliest (acquire min_interval c m) c.domain ⊎ (min_interval ≡ 0)
unfolding earliest acquire
earliest-acquire_same min_interval m c = elim (Bool-cases (min_interval == 0)) [
  | inl e ↦ inr (ground (arith, e))
  | inr e ↦ inl (rw (acquire, e, earliest, text_eq_refl c.domain) (omega arith))
]

earliest_mono :
    (min_interval : ℕ) (m : NextAllowed) (c : Call) (d : Text)
    → c.now + wait_ms m c.domain c.now ≤ c.granted
    → earliest m d ≤ earliest (acquire min_interval c m) d
unfolding earliest wait_ms acquire
earliest_mono min_interval m c d h = elim (Bool-cases (min_interval == 0)) [
  | inl e ↦ rw (acquire, e) (omega arith)
  | inr e ↦ elim (Bool-cases (text_eq d c.domain)) [
    | inl q ↦
        let same : d ≡ c.domain = (text_eq_iff d c.domain).0 q in
        let later : earliest m d ≤ c.granted = rw same (omega (arith, h)) in
        rw (acquire, e, earliest, q) (omega (arith, later))
    | inr q ↦ rw (acquire, e, earliest, q) (omega arith)
  ]
]

-- Each later call is granted when its domain is allowed, or later.
granted_late :
    (min_interval time : ℕ) (m : NextAllowed) (cs : List Call)
    → IsTimed min_interval time m cs
    → All (λ c. earliest m c.domain ≤ c.granted) cs
unfolding wait_ms
granted_late min_interval time m [] h = tt
granted_late min_interval time m (c ∷ cs) (IsTimed.called p q h) = (
  omega (arith, q),
  All-weaken (λ d late. omega (arith, late, earliest_mono min_interval m c d.domain q)) cs
      (granted_late min_interval c.granted (acquire min_interval c m) cs h),
)

granted_order :
    (min_interval time : ℕ) (m : NextAllowed) (cs : List Call)
    → IsTimed min_interval time m cs
    → All (λ c. time ≤ c.granted) cs
granted_order min_interval time m [] h = tt
granted_order min_interval time m (c ∷ cs) (IsTimed.called p q h) = (
  omega (arith, p, q),
  All-weaken (λ d late. omega (arith, late, p, q)) cs
      (granted_order min_interval c.granted (acquire min_interval c m) cs h),
)

spaced_after :
    (min_interval : ℕ) (m : NextAllowed) (c d : Call)
    → earliest (acquire min_interval c m) d.domain ≤ d.granted
    → c.granted ≤ d.granted
    → AreSpaced min_interval c d
spaced_after min_interval m c d late order same = elim (earliest-acquire_same min_interval m c) [
  | inl h ↦
      let at_domain : earliest (acquire min_interval c m) c.domain ≤ d.granted =
        subst (λ x. earliest (acquire min_interval c m) x ≤ d.granted) (sym same) late in
      omega (arith, h, at_domain)
  | inr z ↦ omega (arith, z, order)
]

spaced_all :
    (min_interval : ℕ) (m : NextAllowed) (c : Call) (cs : List Call)
    → All (λ d. earliest (acquire min_interval c m) d.domain ≤ d.granted) cs
    → All (λ d. c.granted ≤ d.granted) cs
    → All (AreSpaced min_interval c) cs
spaced_all min_interval m c [] h k = tt
spaced_all min_interval m c (d ∷ ds) h k =
    (spaced_after min_interval m c d h.0 k.0, spaced_all min_interval m c ds h.1 k.1)

-- Of calls that follow each other, each pair for one domain is granted at least the interval apart,
-- however many calls and domains stand between them.
pub acquire-AreSpaced :
    (min_interval time : ℕ) (m : NextAllowed) (cs : List Call)
    → IsTimed min_interval time m cs
    → IsSorted (AreSpaced min_interval) cs
acquire-AreSpaced min_interval time m [] h = tt
acquire-AreSpaced min_interval time m (c ∷ cs) (IsTimed.called p q h) = (
  spaced_all min_interval m c cs
      (granted_late min_interval c.granted (acquire min_interval c m) cs h)
      (granted_order min_interval c.granted (acquire min_interval c m) cs h),
  acquire-AreSpaced min_interval c.granted (acquire min_interval c m) cs h,
)
