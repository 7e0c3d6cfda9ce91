-- ===== src/Transcode/Command/Probe.antt =====
-- What `build_hls_cmd` is given: the decision with its probed streams, the profile and the backend.
use stremio_libtorrent_serve.Base.{
  ℕ, zero, suc, Bool, true, false, ◌&&◌, ◌||◌, List, [], ◌∷◌, map, Option, none, some, String,
  str_discrete, ite, keep, lower, starts_with, if◌then◌else◌,
}

-- An argument by the parts of its f-string.
pub data Part : Type 0 where
  text : String → Part
  number : ℕ → Part

abbrev pub Arg : Type 0
Arg = List Part

abbrev pub word : String → Arg
word s = Part.text s ∷ []

abbrev pub words : List String → List Arg
words l = map word l

pub data Action : Type 0 where
  copy : Action
  transcode : Action
  other : Action

pub data Track : Type 0 where
  video : Track
  audio : Track
  subtitle : Track

-- A probed stream; missing texts are empty, a missing width is 0.
pub record Stream : Type 0 where
  pub track : Track
  pub index : Option ℕ
  pub lang : String
  pub is_hdr : Bool
  pub color_transfer : String
  pub color_primaries : String
  pub color_space : String
  pub width : ℕ

-- `scale_width` is 0 where there is none; no audio is none.
pub record Decision : Type 0 where
  pub video : Action
  pub scale_width : ℕ
  pub audio : Option Action
  pub streams : List Stream

-- A profile by what the code tests of its name, the longer prefix first.
pub data Profile : Type 0 where
  unset : Profile
  auto : Profile
  nvenc_linux : Profile
  vaapi_full : Profile
  vaapi : Profile
  named : Profile

unfoldable pub named_profile : String → Profile
named_profile s = ite (str_discrete s "auto") Profile.auto (
    ite (str_discrete s "nvenc-linux") Profile.nvenc_linux (
      if starts_with "vaapi-full-" s
      then Profile.vaapi_full
      else if starts_with "vaapi" s
      then Profile.vaapi
      else Profile.named))

unfoldable pub profile_of : Option String → Profile
profile_of none = Profile.unset
profile_of (some s) = named_profile s

pub data BackendName : Type 0 where
  no_backend : BackendName
  vaapi_backend : BackendName
  nvenc_backend : BackendName

-- What was detected or passed: the name, and a device that is not empty.
pub record Backend : Type 0 where
  pub name : BackendName
  pub device : Option String

unfoldable pub take : ℕ → List Stream → List Stream
take n [] = []
take zero (s ∷ l) = []
take (suc n) (s ∷ l) = s ∷ take n l

unfoldable pub is_audio : Track → Bool
is_audio Track.audio = true
is_audio _ = false

unfoldable pub is_video : Track → Bool
is_video Track.video = true
is_video _ = false

unfoldable pub has_index : Option ℕ → Bool
has_index none = false
has_index (some i) = true

-- `_hls_audio_tracks`
unfoldable pub hls_audio_tracks : Decision → List Stream
hls_audio_tracks d = take 10 (keep (λ s. is_audio s.track && has_index s.index) d.streams)

unfoldable pub no_stream : Stream
no_stream = record {
  track = Track.video;
  index = none;
  lang = "";
  is_hdr = false;
  color_transfer = "";
  color_primaries = "";
  color_space = "";
  width = 0;
}

unfoldable pub first_video : List Stream → Stream
first_video [] = no_stream
first_video (s ∷ l) = let rest = first_video l in if is_video s.track then s else rest

-- `_source_video_stream`
unfoldable pub source_video_stream : Decision → Stream
source_video_stream d = first_video d.streams

unfoldable pub is_name : String → String → Bool
is_name s t = ite (str_discrete s t) true false

-- `_source_is_hdr`, the texts without the space around them, which the source strips
unfoldable pub source_is_hdr : Decision → Bool
source_is_hdr d =
    let s = source_video_stream d in
    s.is_hdr
    || (is_name (lower s.color_transfer) "smpte2084"
        || is_name (lower s.color_transfer) "arib-std-b67")

unfoldable pub is_transcode : Action → Bool
is_transcode Action.transcode = true
is_transcode _ = false
