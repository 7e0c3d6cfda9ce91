-- ===== src/Library/RateLimit.antt =====
-- src/stremiosrv/library/ratelimit.py: how often an address may try to sign in.
pub mod Times
pub mod Window
use stremio_libtorrent_serve.Base.{
  ℕ, ◌+◌, Bool, true, false, not, List, [], ◌∷◌, ◌++◌, length, keep, Option, none, some, String,
  string_key, Dict, lookup, insert, ltb, leb, if◌then◌else◌,
}

-- `_hits`: the times of the attempts that were allowed, the oldest first.
abbrev pub Hits : Type 0
Hits = Dict String (List ℕ)

-- `v[-1]`
unfoldable pub last : List ℕ → Option ℕ
last [] = none
last (t ∷ []) = some t
last (t ∷ u ∷ ts) = last (u ∷ ts)

-- `t > now - window`
unfoldable pub in_window : ℕ → ℕ → ℕ → Bool
in_window window now t = ltb now (t + window)

unfoldable pub is_recent : ℕ → ℕ → Option ℕ → Bool
is_recent window now none = false
is_recent window now (some t) = in_window window now t

-- The keys that are reaped are those with no attempt, or whose last is out of the window.
unfoldable pub reap : ℕ → ℕ → Hits → Hits
reap window now hits = keep (λ p. is_recent window now (last p.1)) hits

-- `self._hits.get(key, [])`
unfoldable pub or_empty : Option (List ℕ) → List ℕ
or_empty none = []
or_empty (some ts) = ts

unfoldable pub allow : ℕ → ℕ → String → ℕ → Hits → Hits × Bool
allow limit window key now hits =
    let live = reap window now hits in
    let recent = keep (in_window window now) (or_empty (lookup key live)) in
    if leb limit (length recent)
    then (insert key recent live, false)
    else (insert key (recent ++ (now ∷ [])) live, true)
