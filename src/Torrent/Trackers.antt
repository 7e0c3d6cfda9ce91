-- ===== src/Torrent/Trackers.antt =====
-- src/stremiosrv/torrent/trackers.py: announce URLs, from texts and merged. A text is its code points.
pub mod Collecting
pub mod Merging
pub mod Reading
use stremio_libtorrent_serve.Base.{
  ℕ, Bool, true, false, not, ◌&&◌, ◌||◌, List, [], ◌∷◌, ◌++◌, Option, none, some, String, codes,
  codes_key, contains, is_blank, ◌==◌, if◌then◌else◌, map, strip, is_empty,
}

abbrev pub Text : Type 0
Text = List ℕ

-- `DEFAULT_TRACKERS`
unfoldable pub default_trackers : List Text
default_trackers = map codes (
    "udp://tracker.opentrackr.org:1337/announce" ∷ "udp://open.tracker.cl:1337/announce"
    ∷ "udp://tracker.openbittorrent.com:6969/announce" ∷ "udp://exodus.desync.com:6969/announce"
    ∷ "udp://tracker.torrent.eu.org:451/announce" ∷ "udp://open.demonii.com:1337/announce"
    ∷ "udp://open.stealth.si:80/announce" ∷ "udp://tracker.dler.org:6969/announce"
    ∷ "udp://tracker2.dler.org:80/announce" ∷ "udp://tracker.0x7c0.com:6969/announce"
    ∷ "udp://tracker-udp.gbitt.info:80/announce" ∷ "udp://explodie.org:6969/announce"
    ∷ "udp://uploads.gamecoast.net:6969/announce" ∷ "udp://opentracker.io:6969/announce"
    ∷ "udp://tracker.tiny-vps.com:6969/announce" ∷ "udp://tracker.qu.ax:6969/announce"
    ∷ "udp://tracker.bittor.pw:1337/announce" ∷ "udp://tracker.auctor.tv:6969/announce"
    ∷ "udp://t.overflow.biz:6969/announce" ∷ "udp://open.demonoid.ch:6969/announce"
    ∷ "udp://leet-tracker.moe:1337/announce" ∷ "udp://bt.rer.lol:6969/announce"
    ∷ "udp://open.dstud.io:6969/announce" ∷ "udp://run.publictracker.xyz:6969/announce"
    ∷ "udp://retracker01-msk-virt.corbina.net:80/announce"
    ∷ "udp://tracker.therarbg.to:6969/announce" ∷ "udp://tracker1.myporn.club:9337/announce"
    ∷ "https://tracker.tamersunion.org:443/announce" ∷ "https://tracker.gbitt.info:443/announce"
    ∷ [])

-- `[\s,]`
unfoldable pub is_separator : ℕ → Bool
unfolding is_blank
is_separator c = is_blank c || c == b','

unfoldable pub starts_separator : Text → Bool
unfolding is_separator
starts_separator [] = false
starts_separator (c ∷ s) = is_separator c

-- `_SPLIT.split(s)`: cut at each run of separators; the first piece and the others.
unfoldable pub pieces : Text → Text × List Text
unfolding is_separator starts_separator
pieces [] = ([], [])
pieces (c ∷ s) =
    let (p, ps) = pieces s in
    if is_separator c then if starts_separator s then (p, ps) else ([], p ∷ ps) else (c ∷ p, ps)

unfoldable pub has_prefix : Text → Text → Bool
has_prefix [] s = true
has_prefix (p ∷ ps) [] = false
has_prefix (p ∷ ps) (c ∷ s) = p == c && has_prefix ps s

unfoldable pub is_tracker_url : Text → Bool
unfolding has_prefix
is_tracker_url url =
    has_prefix (codes "udp://") url
    || has_prefix (codes "http://") url
    || has_prefix (codes "https://") url
    || has_prefix (codes "ws://") url
    || has_prefix (codes "wss://") url

-- The loops that append to `out` what passes the test and is not in `seen`.
unfoldable pub collect : (Text → Bool) → List Text → List Text → List Text
collect keep seen [] = []
collect keep seen (t ∷ ts) =
    let fresh = keep t && not (contains t seen) in
    let rest = collect keep (if fresh then t ∷ seen else seen) ts in
    if fresh then t ∷ rest else rest

unfoldable pub parse_tracker_string : Text → List Text
unfolding collect pieces strip is_tracker_url
parse_tracker_string raw = let (p, ps) = pieces (strip raw) in collect is_tracker_url [] (p ∷ ps)

unfoldable pub drop_prefix : Text → Text → Text
drop_prefix [] s = s
drop_prefix (p ∷ ps) [] = []
drop_prefix (p ∷ ps) (c ∷ s) = drop_prefix ps s

-- The URL of one of the `sources`, a text.
unfoldable pub source_url : Text → Text
unfolding strip has_prefix drop_prefix
source_url src =
    let url = strip src in
    if has_prefix (codes "tracker:") url then drop_prefix (codes "tracker:") url else url

-- `none` is a source that is no text.
unfoldable pub source_urls : List (Option Text) → List Text
unfolding source_url
source_urls [] = []
source_urls (none ∷ sources) = source_urls sources
source_urls (some src ∷ sources) = source_url src ∷ source_urls sources

unfoldable pub sources_to_trackers : List (Option Text) → List Text
unfolding source_urls collect is_tracker_url
sources_to_trackers sources = collect is_tracker_url [] (source_urls sources)

unfoldable pub is_text : Text → Bool
unfolding is_empty
is_text t = not (is_empty t)

unfoldable pub merge_trackers : List Text → List Text → List Text → List Text → List Text
unfolding collect is_text
merge_trackers existing extra env live =
    collect is_text [] (existing ++ (default_trackers ++ (env ++ (live ++ extra))))
