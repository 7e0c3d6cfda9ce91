-- ===== src/Lib.antt =====
-- A model of the core of stremio-libtorrent-server: the parts of src/stremiosrv that keep
-- state, choose what is downloaded and offered, decide what is deleted and let people in.
--
-- The program serves torrents to Stremio players. HTTP routes (modelled only where a range is
-- served) call the components: a player that cannot decode a file asks for an HLS job, which
-- the Converter serves from an encoder that several jobs may share; a registry of playback
-- sessions says who is watching; a loop evicts the oldest entries of the cache, and another
-- retires old fast-resume records; registries of wanted files and trackers tell the engine,
-- across restarts, what of a torrent to download, and its handle says which files and pieces
-- are wanted; policies divide the bandwidth and end seeding. The library lists what is on disk
-- from .torrent files, offers its entries to players as an addon, and is behind a sign-in with
-- an owner pin, browser sessions and a rate limit.
--
-- Base: names of the libraries, Boolean tests, decimal numerals, dictionaries as association
-- lists (lookup for get, insert for an assignment, erase for pop), sets as lists, text.
-- Transcode.Registry: src/stremiosrv/transcode/converter.py, class Converter. State has the
-- four maps _jobs, _job_workload, _workload_jobs and _seen, with the processes that run and the
-- directories. Directories: job_dir and _workload_dir. Ensure: the locked part of ensure_job,
-- and touch. Ending: the locked parts of stop, _stop_workload, _stop_workload_if_orphaned and
-- reap_idle, and the clean-up. Methods: the public methods, sweep and job_file. Invariant: the
-- steps of threads in any order, one step for each part under the lock and for each clean-up.
-- Transcode.Command: build_hls_cmd of the same file, an argument as the parts of its f-string.
-- Probe: what it is given. Video, Output: the arguments by their purpose. Build: the whole
-- command.
-- Cache.Eviction, Cache.Pass: select_evictions, scan_cache and evict_once of
-- src/stremiosrv/cache.py. Cache.Owner: read_owner, write_owner, evictor_may_run. Cache.Resume:
-- claimed_hashes, _prune_name_index, sweep_resume.
-- Playback: src/stremiosrv/playback_sessions.py, class PlaybackRegistry; each method under the
-- registry's lock is one function on the two dictionaries.
-- Pins.Names: the regular expressions that read an episode from a file's name, as matchers that
-- give every remainder in the order of the backtracking. Pins.Choosing: select_wanted_file and
-- guess_file_idx, which choose a file of a torrent. Pins.Wanted: the registry of wanted files,
-- its file as the mapping it holds.
-- Torrent.Handle: class Handle of src/stremiosrv/torrent/engine.py; libtorrent is not modelled,
-- and what is asked of it is a log of calls. Torrent.Policy: the bandwidth, seeding and
-- piece-order decisions of the same file. Torrent.Selections: the selectors of class Engine
-- (want, unwant, unpin, the restart), in memory and in the registry's file. Torrent.Trackers:
-- the reading and merging of tracker lists. Torrent.TrackerSource: the source that fetches them
-- and keeps the last good list in a file; the answer of the network is an argument.
-- Torrent.Prefetch: src/stremiosrv/torrent/prefetch.py, and _prefetch_tick of the engine, which
-- asks for the head of the next episode. Order: the natural order of names. Tick: one decision,
-- with what it sees of the torrent as arguments.
-- Library.Bencode: the decoder of .torrent files, with its bound on the depth, its fuel and an
-- encoder to compare it with. Library.Listing: parse_info, the files of a decoded torrent with
-- their numbers and paths. Library.Addon: src/stremiosrv/library/addon_model.py: Ids, the ids
-- of an entry; Files and Playing, which file of an entry is played; Learning, the labels learnt
-- from a player's requests; Streams and Offers, what a player is offered.
-- Library.Session: src/stremiosrv/library/session.py, the state file as its contents.
-- Library.RateLimit: src/stremiosrv/library/ratelimit.py. Library.Labels:
-- src/stremiosrv/library/labels.py.
--
-- Stream.Serving: wait_and_read of src/stremiosrv/stream/fileserver.py, against any sequence of
-- what can happen at a position: the piece does not come, bytes of it are read, an exception.
-- Stream.Types: is_video of the same file. Stream.Ranges: parse_range of
-- src/stremiosrv/stream/ranges.py, and the announced length and body that serve of
-- src/stremiosrv/api/playback.py answers a GET with.
--
-- Times are natural numbers in one unit, and a difference of times stops at 0 where the source
-- would have a negative number; every comparison is written so that both agree. A progress or a
-- fraction of a file is a number of thousandths, and a product with it is exact. New ids and
-- secrets, the clock and the answers of the file system and of processes are arguments. Loops
-- over collections are structural recursion. Only the decoder of .torrent files runs on fuel,
-- twice the length of its input and one, and running out is an outcome of its own. Text is its
-- code points, lowered for ASCII, which infohashes and user agents are. A numeral of more than
-- 4300 digits is an error, as it is for int. int(budget * target_ratio) is an argument, the
-- target. A removal from the cache is taken to succeed, as _remove ignores its errors.
--
-- Not modelled: other HTTP routes, libtorrent's own behaviour, ffmpeg and probing, subtitles,
-- metadata that is fetched, sockets, proxy and certificates, the web administration, the
-- container's scripts, and the measuring of files on disk.
pub mod Base
pub mod Transcode
pub mod Cache
pub mod Stream
pub mod Pins
pub mod Torrent
pub mod Playback
pub mod Library
