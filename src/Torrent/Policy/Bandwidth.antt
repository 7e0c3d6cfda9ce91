-- ===== src/Torrent/Policy/Bandwidth.antt =====
-- The bandwidth between torrents while one plays.
use stremio_libtorrent_serve.Base.{
  ℕ, ◌<◌, ◌≡◌, refl, ap, ◌⊎◌, inl, inr, true, false, not, ◌&&◌, List, [], ◌∷◌, map, some, arith,
  ltb, leb, if◌then◌else◌,
}
use stremio_libtorrent_serve.Torrent.Policy.{
  idle_download_limit, any_active, limits, apply_bandwidth_policy,
}

limits-shared :
    (idle_limit : ℕ) (handles : List ℕ)
    → 0 < idle_limit
    → limits true idle_limit handles ≡ map (λ n. if ltb 0 n then 0 else idle_limit) handles
unfolding limits idle_download_limit
limits-shared idle_limit [] h = refl
limits-shared idle_limit (n ∷ handles) h =
    let rest = limits-shared idle_limit handles h in
    let e : (if ltb 0 idle_limit && (true && not (ltb 0 n)) then idle_limit else 0)
        ≡ (if ltb 0 n then 0 else idle_limit) =
      ground (arith, h) in
    rw (e, rest) refl

-- Someone plays if any handle has an open stream.
abbrev pub Playing : List ℕ → Type 0
Playing [] = ⊥
Playing (n ∷ handles) = (0 < n) ⊎ Playing handles

any_active-Playing : (handles : List ℕ) → Playing handles → any_active handles ≡ true
unfolding any_active
any_active-Playing [] p = absurd p
any_active-Playing (n ∷ handles) (inl h) = ground (arith, h)
any_active-Playing (n ∷ handles) (inr p) = ground (arith, any_active-Playing handles p)

-- With a limit for idle torrents, while someone plays, every torrent with an open stream is
-- unlimited and every other has the limit.
pub apply_bandwidth_policy-shared :
    (idle_limit : ℕ) (handles : List ℕ)
    → 0 < idle_limit
    → Playing handles
    → apply_bandwidth_policy idle_limit handles
      ≡ some (map (λ n. if ltb 0 n then 0 else idle_limit) handles)
unfolding apply_bandwidth_policy
apply_bandwidth_policy-shared idle_limit handles h p =
    let e : leb idle_limit 0 ≡ false = ground arith in
    rw (e, any_active-Playing handles p) (ap some (limits-shared idle_limit handles h))
