-- ===== src/Library/Session.antt =====
-- src/stremiosrv/library/session.py: the account that owns the server, and the browsers signed in.
pub mod Pin
pub mod Lifetime
use stremio_libtorrent_serve.Base.{
  ℕ, ◌+◌, Bool, true, false, not, ◌&&◌, ◌||◌, List, [], ◌∷◌, Option, none, some, String, string_key,
  str_discrete, Dict, lookup, insert, erase, keep, map, ite, ltb, leb, if◌then◌else◌,
}

-- What the file has for a session: its `expires`, or a value that is no dictionary.
pub data Entry : Type 0 where
  null : Entry
  other : Entry
  expires : ℕ → Entry

pub record State : Type 0 where
  pub owner_id : String
  pub sessions : Dict String (Entry)
  pub addon_token : String

abbrev pub blank : State
blank = record { owner_id = ""; sessions = []; addon_token = "" }

-- `load_state`: the file's contents, or a blank state if it is absent or cannot be read.
unfoldable pub load_state : Option State → State
load_state none = blank
load_state (some s) = s

pub record User : Type 0 where
  pub id : String
  pub email : String

unfoldable pub is_equal : String → String → Bool
is_equal s t = ite (str_discrete s t) true false

-- `not s`
unfoldable pub is_blank : String → Bool
is_blank s = is_equal s ""

unfoldable pub owner_matches : User → String → String → Bool
owner_matches user pinned configured =
    if not (is_blank configured)
    then is_equal configured user.id || is_equal configured user.email
    else if is_blank pinned
    then true
    else is_equal user.id pinned

-- `OwnerMismatch`, by its message.
pub data Entrance : Type 0 where
  admitted : String → Entrance
  not_owner : Entrance
  no_id : Entrance

unfoldable pub with_owner : String → State → State
with_owner uid s = record { owner_id = uid; sessions = s.sessions; addon_token = s.addon_token }

-- The file after the call, and what the caller gets.
unfoldable pub claim_owner : User → String → Option State → Option State × Entrance
claim_owner user configured file =
    let s = load_state file in
    if not (owner_matches user s.owner_id configured)
    then (file, Entrance.not_owner)
    else if is_blank user.id
    then (file, Entrance.no_id)
    else if is_equal s.owner_id user.id
    then (file, Entrance.admitted user.id)
    else (some (with_owner user.id s), Entrance.admitted user.id)

unfoldable pub with_sessions : Dict String (Entry) → State → State
with_sessions sessions s = record {
  owner_id = s.owner_id;
  sessions = sessions;
  addon_token = s.addon_token;
}

-- `sid` is the new `token_urlsafe`.
unfoldable pub new_session : String → ℕ → ℕ → Option State → Option State
new_session sid now ttl file =
    let s = load_state file in
    some (with_sessions (insert sid (Entry.expires (now + ttl)) s.sessions) s)

-- `isinstance(v, dict) and v.get("expires", 0) > now`
unfoldable pub is_live : ℕ → Entry → Bool
is_live now (Entry.expires time) = ltb now time
is_live now _ = false

unfoldable pub has_live : ℕ → Option (Entry) → Bool
has_live now none = false
has_live now (some entry) = is_live now entry

unfoldable pub all_live : ℕ → Dict String (Entry) → Bool
all_live now [] = true
all_live now ((sid, entry) ∷ sessions) = is_live now entry && all_live now sessions

unfoldable pub reap : ℕ → Option State → Option State
reap now file =
    let s = load_state file in
    if all_live now s.sessions
    then file
    else some (with_sessions (keep (λ p. is_live now p.1) s.sessions) s)

unfoldable pub verify_session : String → ℕ → Option State → Option State × Bool
verify_session sid now file =
    if is_blank sid
    then (file, false)
    else (reap now file, has_live now (lookup sid (load_state file).sessions))

-- `pop` gives None for a missing session and for a null one: the file is then left as it was.
unfoldable pub drop_found : Option (Entry) → String → State → Option State → Option State
drop_found none sid s file = file
drop_found (some Entry.null) sid s file = file
drop_found (some entry) sid s file = some (with_sessions (erase sid s.sessions) s)

unfoldable pub drop_session : String → Option State → Option State
drop_session sid file = let s = load_state file in drop_found (lookup sid s.sessions) sid s file

unfoldable pub with_token : String → State → State
with_token token s = record { owner_id = s.owner_id; sessions = s.sessions; addon_token = token }

unfoldable pub ensure_addon_token : String → Option State → Option State × String
ensure_addon_token fresh file =
    let s = load_state file in
    if is_blank s.addon_token then (some (with_token fresh s), fresh) else (file, s.addon_token)

unfoldable pub reset_addon_token : String → Option State → Option State × String
reset_addon_token fresh file = (some (with_token fresh (load_state file)), fresh)
