-- ===== src/Types/Matching.antt =====
-- `Limit::matches`: what a limit promises includes what is asked for.
use spacewasm.Prelude.{
  ℕ, ◌+◌, ◌≤◌, ◌≡◌, ◌↔◌, refl, arith, true, false, Option, none, some, ltb, leb→le, if◌then◌else◌,
}
use spacewasm.Types.{Limit, max_matches, matches}

-- A size below a maximum, if there is one.
abbrev pub Below : Option ℕ → ℕ → Type 0
Below none n = Unit {0}
Below (some m) n = n ≤ m

-- The sizes that a limit allows.
abbrev pub Allows : Limit → ℕ → Type 0
Allows l n = (l.min ≤ n) × Below l.max n

max_matches_sound : (a b : Option ℕ) (n : ℕ) → max_matches a b ≡ true → Below a n → Below b n
unfolding max_matches
max_matches_sound a none n e h = tt
max_matches_sound none (some m) n e h = cc
max_matches_sound (some k) (some m) n e h = omega (arith, leb→le k m e)

max_matches_complete :
    (lo : ℕ) (a b : Option ℕ)
    → Below a lo
    → ((n : ℕ) → lo ≤ n → Below a n → Below b n)
    → max_matches a b ≡ true
unfolding max_matches
max_matches_complete lo none none inhabited all = refl
max_matches_complete lo (some k) none inhabited all = refl
max_matches_complete lo none (some m) inhabited all =
    absurd (omega (arith, all (lo + m + 1) (omega arith) tt))
max_matches_complete lo (some k) (some m) inhabited all =
    let below : k ≤ m = all k inhabited (omega arith) in ground arith

-- A limit that allows some size (its maximum is not below its minimum) matches another exactly when
-- every size that it allows is allowed by the other.
pub matches_iff :
    (a b : Limit) → Below a.max a.min → (matches a b ≡ true) ↔ ((n : ℕ) → Allows a n → Allows b n)
unfolding matches
matches_iff a b inhabited = (sound, complete)
  where
    parts :
        (if ltb a.min b.min then false else max_matches a.max b.max) ≡ true
        → (b.min ≤ a.min) × (max_matches a.max b.max ≡ true)
    parts e = ground arith

    sound : matches a b ≡ true → (n : ℕ) → Allows a n → Allows b n
    sound e n (lo, hi) = (omega (arith, parts e), max_matches_sound a.max b.max n (parts e).1 hi)

    complete : ((n : ℕ) → Allows a n → Allows b n) → matches a b ≡ true
    complete all =
        let lower : b.min ≤ a.min = (all a.min (omega arith, inhabited)).0 in
        let upper : max_matches a.max b.max ≡ true =
          max_matches_complete a.min a.max b.max inhabited (λ n lo hi. (all n (lo, hi)).1) in
        ground arith
