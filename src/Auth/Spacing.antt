-- ===== src/Auth/Spacing.antt =====
-- How far apart the refreshes are that the cache of auth.go makes.
use integration_console.Prelude.{ℕ, ◌+◌, ◌≤◌, ◌≡◌, ◌⊎◌, List, [], ◌∷◌}

-- Each time is the one before it, or at least 30 seconds, in nanoseconds, after it.
abbrev pub IsSpaced : ℕ → List ℕ → Type 0
IsSpaced before [] = Unit
IsSpaced before (t ∷ ts) = ((t ≡ before) ⊎ (before + 30000000000 ≤ t)) × IsSpaced t ts
