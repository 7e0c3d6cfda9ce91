-- ===== src/Torrent/Prefetch/Order.antt =====
-- `natural_key` of src/stremiosrv/torrent/prefetch.py and the order of its keys.
use stremio_libtorrent_serve.Base.{
  ℕ, Bool, true, false, ◌||◌, [], ◌∷◌, ltb, ◌==◌, if◌then◌else◌, is_digit, value,
}
use stremio_libtorrent_serve.Pins.Names.{Text, lower}
use stremio_libtorrent_serve.Pins.Choosing.{same_text}

-- A text split at its runs of digits: a text, a run and what follows, or a last text.
pub data Split : Type 0 where
  last : Text → Split
  run : Text → Text → Split → Split

unfoldable pub push_letter : ℕ → Split → Split
push_letter c (last t) = last (c ∷ t)
push_letter c (run t d k) = run (c ∷ t) d k

unfoldable pub push_digit : ℕ → Split → Split
push_digit c (last t) = run [] (c ∷ []) (last t)
push_digit c (run [] d k) = run [] (c ∷ d) k
push_digit c (run (x ∷ t) d k) = run [] (c ∷ []) (run (x ∷ t) d k)

-- The texts are lowered and the runs read as numbers where they are compared.
unfoldable pub natural_key : Text → Split
unfolding push_letter push_digit is_digit
natural_key [] = last []
natural_key (c ∷ s) =
    let rest = natural_key s in if is_digit c then push_digit c rest else push_letter c rest

unfoldable pub less_text : Text → Text → Bool
less_text [] [] = false
less_text [] (d ∷ t) = true
less_text (c ∷ s) [] = false
less_text (c ∷ s) (d ∷ t) =
    let rest = less_text s t in if ltb c d then true else if c == d then rest else false

-- Whether one list of parts is less than another; a list is less than a longer one that it starts.
unfoldable pub less_key : Split → Split → Bool
unfolding less_text lower same_text value
less_key (last t) (last u) = less_text (lower t) (lower u)
less_key (last t) (run u d k) = less_text (lower t) (lower u) || same_text (lower t) (lower u)
less_key (run t d k) (last u) = less_text (lower t) (lower u)
less_key (run t d k) (run u e l) =
    let rest = less_key k l in
    if less_text (lower t) (lower u)
    then true
    else if same_text (lower t) (lower u)
    then (if ltb (value 0 d) (value 0 e)
        then true
        else if value 0 d == value 0 e
        then rest
        else false)
    else false
