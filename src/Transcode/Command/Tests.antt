-- ===== src/Transcode/Command/Tests.antt =====
-- Command lines, and the theorems at concrete decisions.
use stremio_libtorrent_serve.Base.{
  ◌≡◌, refl, false, [], ◌∷◌, none, some, str_discrete, keep, lower, starts_with,
}
use stremio_libtorrent_serve.Transcode.Command.Probe.{
  Part, word, Action, Track, Stream, Decision, Profile, named_profile, profile_of, BackendName,
  Backend, take, is_audio, is_video, has_index, hls_audio_tracks, no_stream, first_video,
  source_video_stream, is_name, source_is_hdr, is_transcode,
}
use stremio_libtorrent_serve.Transcode.Command.Video.{
  device_of, auto_device, option_text, legacy_decoder, hdr_decoder, auto_decoder, decoder_args,
  scaled, hdr_filter, vaapi_encoder, nvenc_encoder, upload_filter, software_encoder, auto_encoder,
  encoder, video_args,
}
use stremio_libtorrent_serve.Transcode.Command.Output.{
  is_multitrack, map_index, map_tracks, single_map, map_args, single_audio, audio_args, language,
  variant, variants, joined, in_dir, output_args,
}
use stremio_libtorrent_serve.Transcode.Command.Build.{build_hls_cmd}
use stremio_libtorrent_serve.Transcode.Command.Copying.{build_hls_cmd-copy}

program : Unit {0}
unfolding keep lower starts_with str_discrete named_profile profile_of take is_audio is_video
    has_index hls_audio_tracks no_stream first_video source_video_stream is_name source_is_hdr
    is_transcode device_of auto_device option_text legacy_decoder hdr_decoder auto_decoder
    decoder_args scaled hdr_filter vaapi_encoder nvenc_encoder upload_filter software_encoder
    auto_encoder encoder video_args is_multitrack map_index map_tracks single_map map_args
    single_audio audio_args language variant variants joined in_dir output_args build_hls_cmd
program = tt

abbrev english : Stream
english = record {
  track = Track.audio;
  index = some 1;
  lang = "eng";
  is_hdr = false;
  color_transfer = "";
  color_primaries = "";
  color_space = "";
  width = 0;
}

abbrev french : Stream
french = record english { index = some 2; lang = "fre" }

abbrev film : Decision
film = record {
  video = Action.copy;
  scale_width = 0;
  audio = some Action.transcode;
  streams = english ∷ french ∷ [];
}

abbrev gpu : Backend
gpu = record { name = BackendName.vaapi_backend; device = some "/dev/dri/renderD128" }

abbrev cpu : Backend
cpu = record { name = BackendName.no_backend; device = none }

two_tracks :
    joined (variants (λ s. s) 0 (english ∷ french ∷ []))
    ≡ Part.text "a:"
      ∷ Part.number 0
      ∷ Part.text ",agroup:audio,default:yes"
      ∷ Part.text ",language:"
      ∷ Part.text "eng"
      ∷ Part.text " "
      ∷ Part.text "a:"
      ∷ Part.number 1
      ∷ Part.text ",agroup:audio,default:no"
      ∷ Part.text ",language:"
      ∷ Part.text "fre"
      ∷ Part.text " "
      ∷ Part.text "v:0,agroup:audio"
      ∷ []
unfolding program
two_tracks = refl

gpu_transcode :
    video_args
      (record film { video = Action.transcode; scale_width = 1280 })
      Action.transcode
      Profile.auto
      gpu
    ≡ word "-vf"
      ∷ (Part.text "scale="
          ∷ Part.number 1280
          ∷ Part.text ":-2:flags=lanczos,format=nv12,hwupload"
          ∷ [])
      ∷ word "-c:v"
      ∷ word "h264_vaapi"
      ∷ []
unfolding program
gpu_transcode = refl

build_hls_cmd-copy_example :
    build_hls_cmd (λ s. s) "http://x" film Profile.auto "/out" gpu
    ≡ build_hls_cmd (λ s. s) "http://x" film Profile.unset "/out" cpu
build_hls_cmd-copy_example =
    build_hls_cmd-copy (λ s. s) "http://x" "/out" film Profile.auto Profile.unset gpu cpu refl
