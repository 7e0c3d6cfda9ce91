-- ===== src/Transcode/Command/Build.antt =====
-- `build_hls_cmd` of src/stremiosrv/transcode/converter.py: the command line of an encoder.
use stremio_libtorrent_serve.Base.{List, [], ◌∷◌, ◌++◌, String}
use stremio_libtorrent_serve.Transcode.Command.Probe.{
  Arg, words, Decision, Profile, Backend, hls_audio_tracks,
}
use stremio_libtorrent_serve.Transcode.Command.Video.{decoder_args, video_args}
use stremio_libtorrent_serve.Transcode.Command.Output.{map_args, audio_args, output_args}

-- `backend` is what was passed, or detected for the profile auto.
unfoldable pub build_hls_cmd :
    (String → String) → String → Decision → Profile → String → Backend → List Arg
build_hls_cmd clean media_url d profile out_dir backend =
    let tracks = hls_audio_tracks d in
    words (
      "ffmpeg" ∷ "-hide_banner" ∷ "-y" ∷ "-protocol_whitelist"
      ∷ "file,crypto,data,http,tcp,tls,https" ∷ [])
    ++ (decoder_args d profile backend
        ++ (words ("-i" ∷ media_url ∷ "-map" ∷ "0:v:0" ∷ [])
            ++ (map_args d tracks
                ++ (video_args d d.video profile backend
                    ++ (audio_args d tracks ++ output_args clean out_dir tracks)))))
