-- ===== src/Transcode/Command/Video.antt =====
-- The arguments of `build_hls_cmd` for decoding and for the video.
use stremio_libtorrent_serve.Base.{
  ℕ, not, ◌&&◌, ◌||◌, List, [], ◌∷◌, ◌++◌, Option, none, some, String, ltb, if◌then◌else◌,
}
use stremio_libtorrent_serve.Transcode.Command.Probe.{
  Part, Arg, word, words, Action, Stream, Decision, Profile, BackendName, Backend,
  source_video_stream, source_is_hdr, is_transcode,
}

unfoldable pub device_of : BackendName → Option String → Option String
device_of BackendName.vaapi_backend device = device
device_of _ device = none

-- The device, where the profile is auto and the backend is VAAPI with one.
unfoldable pub auto_device : Profile → Backend → Option String
auto_device Profile.auto b = device_of b.name b.device
auto_device _ b = none

-- Each property with its value, if there is one.
unfoldable pub option_text : String → String → List Arg
option_text option String.[] = []
option_text option (String.◌∷◌ c s) = word option ∷ word (String.◌∷◌ c s) ∷ []

unfoldable pub legacy_decoder : Profile → List Arg
legacy_decoder Profile.nvenc_linux = words ("-hwaccel" ∷ "cuda" ∷ [])
legacy_decoder Profile.vaapi_full =
    words ("-hwaccel" ∷ "vaapi" ∷ "-hwaccel_output_format" ∷ "vaapi" ∷ [])
legacy_decoder _ = []

unfoldable pub hdr_decoder : Stream → String → List Arg
hdr_decoder s device =
    words
      ("-hwaccel" ∷ "vaapi" ∷ "-hwaccel_device" ∷ device ∷ "-hwaccel_output_format" ∷ "vaapi" ∷ [])
    ++ (option_text "-color_primaries" s.color_primaries
        ++ (option_text "-color_trc" s.color_transfer ++ option_text "-colorspace" s.color_space))

unfoldable pub auto_decoder : Decision → Option String → List Arg
auto_decoder d none = []
auto_decoder d (some device) =
    words ("-vaapi_device" ∷ device ∷ [])
    ++ (if source_is_hdr d then hdr_decoder (source_video_stream d) device else [])

-- The arguments before the input, which only a transcode has.
unfoldable pub decoder_args : Decision → Profile → Backend → List Arg
decoder_args d profile backend =
    if is_transcode d.video
    then legacy_decoder profile ++ auto_decoder d (auto_device profile backend)
    else []

-- A filter that scales to the width, around what precedes and follows it, or the other if there is none.
unfoldable pub scaled : ℕ → String → String → String → Arg
scaled w before after unscaled =
    if ltb 0 w then Part.text before ∷ Part.number w ∷ Part.text after ∷ [] else word unscaled

unfoldable pub hdr_filter : ℕ → ℕ → Arg
hdr_filter w source_width =
    Part.text "tonemap_vaapi=format=nv12:matrix=bt709:primaries=bt709:transfer=bt709"
    ∷ (if ltb 0 w && (not (ltb 0 source_width) || ltb w source_width)
        then Part.text ",scale_vaapi=w=" ∷ Part.number w ∷ Part.text ":h=-2:format=nv12" ∷ []
        else [])

unfoldable pub vaapi_encoder : Arg → List Arg
vaapi_encoder filter = word "-vf" ∷ filter ∷ words ("-c:v" ∷ "h264_vaapi" ∷ [])

unfoldable pub nvenc_encoder : ℕ → List Arg
nvenc_encoder w =
    word "-vf"
    ∷ scaled w "scale=" ":-2:flags=lanczos,format=yuv420p" "format=yuv420p"
    ∷ words ("-c:v" ∷ "h264_nvenc" ∷ "-preset" ∷ "p4" ∷ [])

unfoldable pub upload_filter : ℕ → Arg
upload_filter w = scaled w "scale=" ":-2:flags=lanczos,format=nv12,hwupload" "format=nv12,hwupload"

unfoldable pub software_encoder : ℕ → List Arg
software_encoder w =
    (if ltb 0 w
      then word "-vf"
        ∷ (Part.text "scale=" ∷ Part.number w ∷ Part.text ":-2:flags=lanczos" ∷ [])
        ∷ []
      else [])
    ++ words ("-c:v" ∷ "libx264" ∷ "-preset" ∷ "veryfast" ∷ [])

unfoldable pub auto_encoder : Decision → BackendName → Option String → List Arg
auto_encoder d name (some device) = vaapi_encoder (
    if is_transcode d.video && source_is_hdr d
    then hdr_filter d.scale_width (source_video_stream d).width
    else upload_filter d.scale_width)
auto_encoder d BackendName.nvenc_backend none = nvenc_encoder d.scale_width
auto_encoder d _ none = software_encoder d.scale_width

unfoldable pub encoder : Decision → Profile → Backend → List Arg
encoder d Profile.auto backend = auto_encoder d backend.name (auto_device Profile.auto backend)
encoder d Profile.nvenc_linux backend = nvenc_encoder d.scale_width
encoder d Profile.vaapi_full backend =
    vaapi_encoder
      (scaled d.scale_width "scale_vaapi=w=" ":h=-2:format=nv12" "scale_vaapi=format=nv12")
encoder d Profile.vaapi backend = vaapi_encoder (upload_filter d.scale_width)
encoder d _ backend = software_encoder d.scale_width

unfoldable pub video_args : Decision → Action → Profile → Backend → List Arg
video_args d Action.copy profile backend = words ("-c:v" ∷ "copy" ∷ [])
video_args d _ profile backend = encoder d profile backend
