-- ===== src/Transcode/Command/Tracks.antt =====
-- The audio tracks of an HLS presentation: mapped and announced alike.
use stremio_libtorrent_serve.Base.{
  ℕ, suc, ◌+◌, ◌≡◌, refl, ap, ◌∙◌, length, arith, true, List, [], ◌∷◌, ◌++◌, String,
}
use stremio_libtorrent_serve.Transcode.Command.Probe.{Arg, Stream, has_index}
use stremio_libtorrent_serve.Transcode.Command.Output.{variant, variants}

-- Every track of the list has an index in the file.
abbrev pub Indexed : List Stream → Type 0
Indexed [] = Unit {0}
Indexed (s ∷ l) = (has_index s.index ≡ true) × Indexed l

-- The items of the variant map are numbered as FFmpeg numbers the mapped tracks: by how many come before.
pub variants-numbered :
    (clean : String → String) (first : ℕ) (before after : List Stream) (s : Stream)
    → (items : List Arg) × (variants clean first (before ++ (s ∷ after))
        ≡ items
          ++ (variant clean (first + length before) s
              ∷ variants clean (suc (first + length before)) after))
      × (length items ≡ length before)
unfolding variants
variants-numbered clean first [] after s =
    ([], ap (λ n. variant clean n s ∷ variants clean (suc n) after) (omega arith), refl)
variants-numbered clean first (t ∷ before) after s =
    let rest = variants-numbered clean (suc first) before after s in
    let n : suc first + length before ≡ first + suc (length before) = omega arith in
    (
      variant clean first t ∷ rest.0,
      ap (◌∷◌ (variant clean first t)) rest.1
          ∙ ap
              (λ m.
                variant clean first t
                ∷ (rest.0 ++ (variant clean m s ∷ variants clean (suc m) after)))
              n,
      ap suc rest.2,
    )
