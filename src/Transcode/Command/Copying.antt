-- ===== src/Transcode/Command/Copying.antt =====
-- The arguments for a video that is copied.
use stremio_libtorrent_serve.Base.{◌≡◌, refl, String}
use stremio_libtorrent_serve.Transcode.Command.Probe.{
  Action, Decision, Profile, Backend, is_transcode,
}
use stremio_libtorrent_serve.Transcode.Command.Video.{decoder_args, video_args}
use stremio_libtorrent_serve.Transcode.Command.Build.{build_hls_cmd}

-- Where the decision is to copy the video, the command is the same for every profile and backend:
-- no hardware that was found makes it decode or encode.
pub build_hls_cmd-copy :
    (clean : String → String) (media_url out_dir : String) (d : Decision) (p q : Profile)
    (b c : Backend)
    → d.video ≡ Action.copy
    → build_hls_cmd clean media_url d p out_dir b ≡ build_hls_cmd clean media_url d q out_dir c
unfolding build_hls_cmd decoder_args video_args is_transcode
build_hls_cmd-copy clean media_url out_dir d p q b c h = rw h refl
