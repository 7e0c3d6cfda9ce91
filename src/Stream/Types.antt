-- ===== src/Stream/Types.antt =====
-- `is_video` of src/stremiosrv/stream/fileserver.py: the file names that are streamed as videos.
use stremio_libtorrent_serve.Base.{Bool, false, ◌||◌, List, [], ◌∷◌, codes, ◌==◌, if◌then◌else◌}
use stremio_libtorrent_serve.Pins.Names.{Text, lower, basename}
use stremio_libtorrent_serve.Pins.Choosing.{same_text}

-- `VIDEO_TYPES`, its keys
abbrev pub video_types : List Text
video_types =
    codes ".mp4"
    ∷ codes ".m4v"
    ∷ codes ".webm"
    ∷ codes ".mkv"
    ∷ codes ".avi"
    ∷ codes ".mov"
    ∷ codes ".ts"
    ∷ codes ".m2ts"
    ∷ codes ".ogv"
    ∷ codes ".flv"
    ∷ codes ".wmv"
    ∷ codes ".mpg"
    ∷ codes ".mpeg"
    ∷ []

unfoldable pub has_dot : Text → Bool
has_dot [] = false
has_dot (c ∷ s) = c == b'.' || has_dot s

-- From the last dot.
unfoldable pub last_dot : Text → Text
unfolding has_dot
last_dot [] = []
last_dot (c ∷ s) =
    let rest = last_dot s in if has_dot s then rest else if c == b'.' then c ∷ s else []

unfoldable pub drop_dots : Text → Text
drop_dots [] = []
drop_dots (c ∷ s) = let rest = drop_dots s in if c == b'.' then rest else c ∷ s

-- `os.path.splitext(path)[1]`: the dots that a name starts with are no extension.
unfoldable pub extension : Text → Text
unfolding last_dot drop_dots basename
extension path = last_dot (drop_dots (basename path))

unfoldable pub is_one_of : List Text → Text → Bool
unfolding same_text
is_one_of [] t = false
is_one_of (u ∷ us) t = same_text u t || is_one_of us t

-- `is_video` of src/stremiosrv/stream/fileserver.py
unfoldable pub is_video : Text → Bool
unfolding is_one_of extension lower
is_video name = is_one_of video_types (lower (extension name))
