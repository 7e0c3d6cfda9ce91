-- ===== src/Torrent/Policy/Hysteresis.antt =====
-- The order of pieces as the buffer grows and shrinks.
use stremio_libtorrent_serve.Base.{
  ℕ, ◌≤◌, ◌<◌, ◌≡◌, refl, ◌⊎◌, inl, inr, Bool, true, false, List, [], ◌∷◌, arith, leb,
}
use stremio_libtorrent_serve.Torrent.Policy.{adaptive_sequential}

-- The mode after a sequence of measured buffers.
unfoldable pub modes : ℕ → ℕ → Bool → List ℕ → Bool
modes low high mode [] = mode
modes low high mode (b ∷ buffers) = modes low high (adaptive_sequential b mode low high) buffers

-- Every measure is strictly between the marks.
abbrev pub Between : ℕ → ℕ → List ℕ → Type 0
Between low high [] = Unit {0}
Between low high (b ∷ buffers) = (low < b) × (b < high) × Between low high buffers

stays :
    (low high : ℕ) (m : Bool) (bs : List ℕ)
    → low < high
    → Between low high bs
    → modes low high m bs ≡ m
unfolding modes adaptive_sequential
stays low high m [] h t = refl
stays low high m (c ∷ bs) h t =
    let e : adaptive_sequential c m low high ≡ m = ground (arith, t.0, t.1, h) in
    rw (e, modes) (stays low high m bs h t.2)

-- With marks in order, a measure that reached the upper mark makes downloads parallel and one that
-- fell to the lower mark sequential, whatever the mode was, and the mode then stays through any
-- measures between the marks.
pub modes-hold :
    (low high b : ℕ) (mode : Bool) (buffers : List ℕ)
    → low < high
    → Between low high buffers
    → (b ≤ low) ⊎ (high ≤ b)
    → modes low high mode (b ∷ buffers) ≡ leb b low
unfolding modes adaptive_sequential
modes-hold low high b mode buffers h between (inl down) =
    let e : adaptive_sequential b mode low high ≡ true = ground (arith, down, h) in
    let f : leb b low ≡ true = ground (arith, down) in
    rw (e, f, modes) (stays low high true buffers h between)
modes-hold low high b mode buffers h between (inr up) =
    let e : adaptive_sequential b mode low high ≡ false = ground (arith, up, h) in
    let f : leb b low ≡ false = ground (arith, up, h) in
    rw (e, f, modes) (stays low high false buffers h between)
