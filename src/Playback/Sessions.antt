-- ===== src/Playback/Sessions.antt =====
-- `PlaybackRegistry` of src/stremiosrv/playback_sessions.py: who is reading what, and the HLS jobs.
use stremio_libtorrent_serve.Base.{
  ℕ, ◌+◌, ◌-◌, Bool, true, false, ◌||◌, List, [], ◌∷◌, Option, none, some, String, string_key,
  str_discrete, Dict, lookup, insert, erase, lower, starts_with, ite, ltb, if◌then◌else◌,
}

pub data Kind : Type 0 where
  source : Kind
  hls : Kind

pub data Activity : Type 0 where
  starting : Activity
  buffering : Activity
  playing : Activity
  idle : Activity
  ended : Activity

pub data Client : Type 0 where
  ffmpeg : Client
  stremio : Client
  browser : Client
  http : Client

pub record Session : Type 0 where
  pub kind : Kind
  pub info_hash : String
  pub file_idx : ℕ
  pub client : Client
  pub user_agent : String
  pub started_at : ℕ
  pub last_activity : ℕ
  pub bytes_served : ℕ
  pub open_requests : ℕ
  pub state : Activity
  pub job_id : Option String
  pub workload_id : Option String
  pub ended_at : Option ℕ

pub record Registry : Type 0 where
  pub sessions : Dict String Session
  pub jobs : Dict String String

abbrev pub initial : Registry
initial = record { sessions = []; jobs = [] }

-- `part in s`
unfoldable pub occurs : String → String → Bool
occurs part String.[] = starts_with part String.[]
occurs part (String.◌∷◌ c s) = starts_with part (String.◌∷◌ c s) || occurs part s

-- A missing user agent is the empty text.
unfoldable pub classify_client : String → Client
classify_client user_agent =
    let ua = lower user_agent in
    if occurs "lavf/" ua || occurs "ffmpeg" ua
    then Client.ffmpeg
    else if occurs "stremio" ua
    then Client.stremio
    else if occurs "mozilla/" ua
    then Client.browser
    else Client.http

-- `now - session.lastActivity > self._retention`
unfoldable pub is_stale : ℕ → ℕ → Session → Bool
is_stale retention now s = ltb retention (now - s.last_activity)

unfoldable pub stale_ids : ℕ → ℕ → Dict String Session → List String
stale_ids retention now [] = []
stale_ids retention now ((sid, s) ∷ sessions) =
    let rest = stale_ids retention now sessions in
    if is_stale retention now s then sid ∷ rest else rest

unfoldable pub is_text : String → Bool
is_text String.[] = false
is_text (String.◌∷◌ c s) = true

-- `if job_id and self._jobs.get(job_id) == sid: self._jobs.pop(job_id, None)`
unfoldable pub drop_job : String → String → Option String → Dict String String → Dict String String
drop_job sid job none jobs = jobs
drop_job sid job (some owner) jobs =
    if is_text job then ite (str_discrete owner sid) (erase job jobs) jobs else jobs

unfoldable pub drop_job_of : String → Option String → Dict String String → Dict String String
drop_job_of sid none jobs = jobs
drop_job_of sid (some job) jobs = drop_job sid job (lookup job jobs) jobs

unfoldable pub drop_found : String → Option Session → Registry → Registry
drop_found sid none r = r
drop_found sid (some s) r = record {
  sessions = erase sid r.sessions;
  jobs = drop_job_of sid s.job_id r.jobs;
}

unfoldable pub drop_all : List String → Registry → Registry
drop_all [] r = r
drop_all (sid ∷ sids) r = drop_all sids (drop_found sid (lookup sid r.sessions) r)

unfoldable pub prune : ℕ → ℕ → Registry → Registry
prune retention now r = drop_all (stale_ids retention now r.sessions) r

-- `sid` is the new `uuid4`.
unfoldable pub open_source : ℕ → ℕ → String → String → ℕ → String → Registry → Registry
open_source retention now sid info_hash file_idx user_agent r = prune retention now (record {
  sessions =
      insert sid
        (record {
          kind = Kind.source;
          info_hash = lower info_hash;
          file_idx = file_idx;
          client = classify_client user_agent;
          user_agent = user_agent;
          started_at = now;
          last_activity = now;
          bytes_served = 0;
          open_requests = 1;
          state = Activity.buffering;
          job_id = none;
          workload_id = none;
          ended_at = none;
        })
        r.sessions;
  jobs = r.jobs;
})

-- `self._sessions[sid]` changed in place, where there is one.
unfoldable pub change_found : String → Option Session → (Session → Session) → Registry → Registry
change_found sid none f r = r
change_found sid (some s) f r = record { sessions = insert sid (f s) r.sessions; jobs = r.jobs }

unfoldable pub change : String → (Session → Session) → Registry → Registry
change sid f r = change_found sid (lookup sid r.sessions) f r

unfoldable pub with_bytes : ℕ → ℕ → Session → Session
with_bytes now count s = record s {
  last_activity = now;
  bytes_served = s.bytes_served + count;
  state = Activity.playing;
}

-- `count` is `max(0, int(count))`.
unfoldable pub note_bytes : ℕ → String → ℕ → Registry → Registry
note_bytes now sid count r = change sid (with_bytes now count) r

unfoldable pub closed : ℕ → Session → Session
closed now s = record s {
  last_activity = now;
  open_requests = 0;
  state = Activity.idle;
  ended_at = some now;
}

unfoldable pub close_source : ℕ → String → Registry → Registry
close_source now sid r = change sid (closed now) r

-- The text if it is not empty, else what was there.
unfoldable pub text_or : Option String → Option String → Option String
text_or none old = old
text_or (some String.[]) old = old
text_or (some (String.◌∷◌ c s)) old = some (String.◌∷◌ c s)

unfoldable pub reported : ℕ → Option String → Session → Session
reported now workload_id s = record s {
  last_activity = now;
  workload_id = text_or workload_id s.workload_id;
}

-- What a playlist request says.
pub record Request : Type 0 where
  pub job_id : String
  pub info_hash : String
  pub file_idx : ℕ
  pub user_agent : String
  pub workload_id : Option String

-- The session of an HLS job, which has been registered with the new `uuid4`.
unfoldable pub hls_session : ℕ → Request → Session
hls_session now q = record {
  kind = Kind.hls;
  info_hash = lower q.info_hash;
  file_idx = q.file_idx;
  client = classify_client q.user_agent;
  user_agent = q.user_agent;
  started_at = now;
  last_activity = now;
  bytes_served = 0;
  open_requests = 0;
  state = Activity.buffering;
  job_id = some q.job_id;
  workload_id = q.workload_id;
  ended_at = none;
}

unfoldable pub new_hls : ℕ → ℕ → String → Request → Registry → Registry
new_hls retention now fresh q r = prune retention now (record {
  sessions = insert fresh (hls_session now q) r.sessions;
  jobs = insert q.job_id fresh r.jobs;
})

-- By the session that the job's id stands for, if there is one.
unfoldable pub register_found :
    ℕ → ℕ → String → Request → String → Option Session → Registry → Registry × String
register_found retention now fresh q sid none r = (new_hls retention now fresh q r, fresh)
register_found retention now fresh q sid (some s) r =
    (record { sessions = insert sid (reported now q.workload_id s) r.sessions; jobs = r.jobs }, sid)

unfoldable pub register_named :
    ℕ → ℕ → String → Request → Option String → Registry → Registry × String
register_named retention now fresh q none r = (new_hls retention now fresh q r, fresh)
register_named retention now fresh q (some sid) r =
    if is_text sid
    then register_found retention now fresh q sid (lookup sid r.sessions) r
    else (new_hls retention now fresh q r, fresh)

-- The session's id is returned; `fresh` is the new `uuid4`, used if one is needed.
unfoldable pub register_hls_job : ℕ → ℕ → String → Request → Registry → Registry × String
register_hls_job retention now fresh q r =
    register_named retention now fresh q (lookup q.job_id r.jobs) r

unfoldable pub with_agent : ℕ → String → Session → Session
with_agent now user_agent s = record s {
  client = if is_text user_agent then classify_client user_agent else s.client;
  user_agent = if is_text user_agent then user_agent else s.user_agent;
  last_activity = now;
  state = Activity.playing;
}

unfoldable pub change_named : Option String → (Session → Session) → Registry → Registry
change_named none f r = r
change_named (some sid) f r = if is_text sid then change sid f r else r

unfoldable pub touch_hls : ℕ → String → String → Registry → Registry
touch_hls now job_id user_agent r =
    change_named (lookup job_id r.jobs) (with_agent now user_agent) r

unfoldable pub finished : ℕ → Session → Session
finished now s = record s { last_activity = now; state = Activity.ended; ended_at = some now }

unfoldable pub end_hls : ℕ → String → Registry → Registry
end_hls now job_id r =
    change_named (lookup job_id r.jobs) (finished now)
      (record { sessions = r.sessions; jobs = erase job_id r.jobs })
