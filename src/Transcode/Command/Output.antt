-- ===== src/Transcode/Command/Output.antt =====
-- The arguments of `build_hls_cmd` for the audio tracks and for the HLS output.
use stremio_libtorrent_serve.Base.{
  ℕ, suc, Bool, true, false, List, [], ◌∷◌, ◌++◌, Option, none, some, String, ltb, if◌then◌else◌,
}
use stremio_libtorrent_serve.Transcode.Command.Probe.{
  Part, Arg, word, words, Action, Stream, Decision, is_name,
}

unfoldable pub is_multitrack : List Stream → Bool
is_multitrack [] = false
is_multitrack (s ∷ []) = false
is_multitrack (s ∷ t ∷ l) = true

-- `f"0:{track['index']}?"`, for a track that has one
unfoldable pub map_index : Option ℕ → List Arg
map_index none = []
map_index (some i) = word "-map" ∷ (Part.text "0:" ∷ Part.number i ∷ Part.text "?" ∷ []) ∷ []

unfoldable pub map_tracks : List Stream → List Arg
map_tracks [] = []
map_tracks (s ∷ l) = map_index s.index ++ map_tracks l

unfoldable pub single_map : Option Action → List Arg
single_map none = []
single_map (some a) = words ("-map" ∷ "0:a:0?" ∷ [])

unfoldable pub map_args : Decision → List Stream → List Arg
map_args d tracks = if is_multitrack tracks then map_tracks tracks else single_map d.audio

unfoldable pub single_audio : Option Action → List Arg
single_audio none = []
single_audio (some Action.copy) = words ("-c:a" ∷ "copy" ∷ [])
single_audio (some _) = words ("-c:a" ∷ "aac" ∷ "-ac" ∷ "2" ∷ "-ab" ∷ "192000" ∷ [])

unfoldable pub audio_args : Decision → List Stream → List Arg
audio_args d tracks =
    if is_multitrack tracks
    then words ("-c:a" ∷ "aac" ∷ "-ac" ∷ "2" ∷ "-b:a" ∷ "192k" ∷ [])
    else single_audio d.audio

-- A language as `_hls_lang` leaves it: `clean` is its letters, digits, `_` and `-`, at most 24.
unfoldable pub language : (String → String) → String → Arg
language clean lang =
    let c = clean lang in if is_name c "" then [] else Part.text ",language:" ∷ Part.text c ∷ []

unfoldable pub variant : (String → String) → ℕ → Stream → Arg
variant clean index s =
    Part.text "a:"
    ∷ Part.number index
    ∷ Part.text (if ltb 0 index then ",agroup:audio,default:no" else ",agroup:audio,default:yes")
    ∷ language clean s.lang

-- The items of `-var_stream_map`, which the source joins with a space.
unfoldable pub variants : (String → String) → ℕ → List Stream → List Arg
variants clean index [] = word "v:0,agroup:audio" ∷ []
variants clean index (s ∷ l) = variant clean index s ∷ variants clean (suc index) l

unfoldable pub joined : List Arg → Arg
joined [] = []
joined (a ∷ []) = a
joined (a ∷ b ∷ l) = a ++ (Part.text " " ∷ joined (b ∷ l))

unfoldable pub in_dir : String → String → Arg
in_dir out_dir name = Part.text out_dir ∷ Part.text name ∷ []

unfoldable pub output_args : (String → String) → String → List Stream → List Arg
output_args clean out_dir tracks =
    words ("-f" ∷ "hls" ∷ "-hls_time" ∷ "4" ∷ "-hls_playlist_type" ∷ "event" ∷ [])
    ++ (if is_multitrack tracks
        then words (
            "-hls_segment_type" ∷ "mpegts" ∷ "-hls_flags" ∷ "independent_segments"
            ∷ "-hls_segment_filename" ∷ [])
          ++ (in_dir out_dir "/seg_%v_%d.ts"
                ∷ word "-var_stream_map"
                ∷ joined (variants clean 0 tracks)
                ∷ words ("-master_pl_name" ∷ "master.m3u8" ∷ [])
              ++ (in_dir out_dir "/stream_%v.m3u8" ∷ []))
        else words (
            "-hls_segment_type" ∷ "fmp4" ∷ "-hls_flags" ∷ "independent_segments"
            ∷ "-hls_fmp4_init_filename" ∷ "init.mp4" ∷ "-hls_segment_filename" ∷ [])
          ++ (in_dir out_dir "/seg%d.m4s" ∷ words ("-master_pl_name" ∷ "master.m3u8" ∷ [])
              ++ (in_dir out_dir "/index.m3u8" ∷ [])))
