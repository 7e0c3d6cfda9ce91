-- ===== src/Torrent/Trackers/Merging.antt =====
-- The announce list of a torrent.
use stremio_libtorrent_serve.Base.{
  ◌≡◌, refl, ◌∙◌, Bool, ◌&&◌, ◌||◌, List, [], ◌∷◌, ◌++◌, codes_key, contains, contains-append,
}
use stremio_libtorrent_serve.Torrent.Trackers.{
  Text, default_trackers, collect, is_text, merge_trackers,
}
use stremio_libtorrent_serve.Torrent.Trackers.Collecting.{
  Fresh, collect-Fresh, contains-collect, Subsequence, collect-Subsequence, Pass,
}

collect_first :
    (keep : Text → Bool) (seen xs ys : List Text)
    → Pass keep xs
    → Fresh seen xs
    → (rest : List Text) × (collect keep seen (xs ++ ys) ≡ xs ++ rest)
unfolding collect
collect_first keep seen [] ys p f = (collect keep seen ys, refl)
collect_first keep seen (t ∷ xs) ys p f =
    let (rest, e) = collect_first keep (t ∷ seen) xs ys p.1 f.1 in (rest, rw (p.0, f.0, e))

-- All that is merged, in the order of its rank.
unfoldable pub ranked : List Text → List Text → List Text → List Text → List Text
ranked existing extra env live = existing ++ (default_trackers ++ (env ++ (live ++ extra)))

module _ (existing extra env live : List Text) where
  -- The merged list has no text twice and exactly the texts, other than the empty one, that stand
  -- in one of the five groups, the first of each in the order of the groups.
  pub merge_trackers-merged :
      Fresh [] (merge_trackers existing extra env live)
      × Subsequence (merge_trackers existing extra env live) (ranked existing extra env live)
      × ((u : Text)
          → contains u (merge_trackers existing extra env live)
            ≡ is_text u
              && (contains u existing
                  || (contains u default_trackers
                      || (contains u env || (contains u live || contains u extra)))))
  unfolding merge_trackers ranked
  merge_trackers-merged =
      let all = existing ++ (default_trackers ++ (env ++ (live ++ extra))) in
      (
        collect-Fresh is_text [] all,
        collect-Subsequence is_text [] all,
        λ u.
            contains-collect is_text [] all u
            ∙ (unfold contains in
                rw
                  (
                    contains-append u existing (default_trackers ++ (env ++ (live ++ extra))),
                    contains-append u default_trackers (env ++ (live ++ extra)),
                    contains-append u env (live ++ extra),
                    contains-append u live extra,
                  )
                  refl),
      )

  -- A torrent keeps its own trackers first: they are the start of the merged list.
  pub merge_trackers-first :
      Pass is_text existing
      → Fresh [] existing
      → (rest : List Text) × (merge_trackers existing extra env live ≡ existing ++ rest)
  unfolding merge_trackers
  merge_trackers-first p f =
      collect_first is_text [] existing (default_trackers ++ (env ++ (live ++ extra))) p f
