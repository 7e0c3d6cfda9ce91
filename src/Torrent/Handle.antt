-- ===== src/Torrent/Handle.antt =====
-- `Handle` of src/stremiosrv/torrent/engine.py: which files and pieces of a torrent are asked for.
pub mod Priorities
pub mod Wanting
pub mod Boosting
use stremio_libtorrent_serve.Base.{
  ℕ, zero, suc, ◌+◌, ◌-◌, Bool, true, false, not, ◌&&◌, ◌||◌, List, [], ◌∷◌, ◌++◌, Option, none,
  some, number_key, ℕ_discrete, contains, add, length, ite, ltb, ◌==◌, if◌then◌else◌,
}

-- What the handle asks of libtorrent, which is not modelled.
pub data Call : Type 0 where
  prioritize_files : List ℕ → Call
  set_sequential_download : Bool → Call
  file_priority : ℕ → ℕ → Call
  piece_priority : ℕ → ℕ → Call
  prioritize_pieces : List ℕ → Call
  set_piece_deadline : ℕ → ℕ → Call
  reset_piece_deadline : ℕ → Call

-- `files` is the number of files once the metadata is there. File indices are those of the
-- torrent's list. `calls` are the calls to libtorrent, the latest first.
pub record Handle : Type 0 where
  pub files : Option ℕ
  pub pinned : Bool
  pub wanted : List ℕ
  pub boosted : List ℕ
  pub focused : Option ℕ
  pub active : ℕ
  pub read_pos : ℕ
  pub read_total : ℕ
  pub prefetched : List ℕ
  pub calls : List Call

-- `Handle.__init__`
abbrev pub new_handle : Option ℕ → Handle
new_handle files = record {
  files = files;
  pinned = false;
  wanted = [];
  boosted = [];
  focused = none;
  active = 0;
  read_pos = 0;
  read_total = 0;
  prefetched = [];
  calls = [];
}

abbrev pub active_file_prio : ℕ
active_file_prio = 4

abbrev pub idle_file_prio : ℕ
idle_file_prio = 1

-- `[v] * n`
unfoldable pub repeat : ℕ → ℕ → List ℕ
repeat v zero = []
repeat v (suc n) = v ∷ repeat v n

-- `l[i] = v`, where the index is in range
unfoldable pub set_at : ℕ → ℕ → List ℕ → List ℕ
set_at i v [] = []
set_at zero v (x ∷ l) = v ∷ l
set_at (suc i) v (x ∷ l) = x ∷ set_at i v l

-- `for i in self.wanted: if 0 <= i < n: prios[i] = IDLE_FILE_PRIO`
unfoldable pub mark_wanted : List ℕ → List ℕ → List ℕ
mark_wanted [] prios = prios
mark_wanted (i ∷ wanted) prios = mark_wanted wanted (set_at i idle_file_prio prios)

unfoldable pub is_none : List ℕ → Bool
is_none [] = true
is_none (i ∷ l) = false

unfoldable pub base_priorities : Bool → List ℕ → ℕ → List ℕ
base_priorities pinned wanted n =
    if pinned && is_none wanted then repeat 1 n else mark_wanted wanted (repeat 0 n)

unfoldable pub is_active : Handle → Bool
is_active h = ltb 0 h.active

unfoldable pub num_files : Option ℕ → ℕ
num_files none = 0
num_files (some n) = n

unfoldable pub with_focus : Bool → Option ℕ → List ℕ → List ℕ
with_focus active none prios = prios
with_focus active (some i) prios =
    set_at i (if active then active_file_prio else idle_file_prio) prios

-- `_priorities`
unfoldable pub priorities : Option ℕ → Handle → List ℕ
priorities focus h =
    with_focus (is_active h) focus (base_priorities h.pinned h.wanted (num_files h.files))

unfoldable pub call : Call → Handle → Handle
call c h = record h { calls = c ∷ h.calls }

unfoldable pub focus_known : Option ℕ → ℕ → Handle → Handle
focus_known none i h = h
focus_known (some n) i h =
    let w = record h { wanted = add i h.wanted } in
    let p = call (Call.prioritize_files (priorities (some i) w)) w in
    let s = call (Call.set_sequential_download true) p in record s { focused = some i }

unfoldable pub is_focus : Option ℕ → ℕ → Bool
is_focus none i = false
is_focus (some j) i = j == i

unfoldable pub focus_file : ℕ → Handle → Handle
focus_file i h =
    if is_focus h.focused i
    then h
    else focus_known h.files i (record h { read_pos = 0; read_total = 0; prefetched = [] })

unfoldable pub want_all_known : Option ℕ → Handle → Handle
want_all_known none h = h
want_all_known (some n) h =
    let p = call (Call.prioritize_files (repeat 1 n)) h in record p { focused = none }

unfoldable pub want_all_files : Handle → Handle
want_all_files h = want_all_known h.files h

unfoldable pub reapply_priorities : Handle → Handle
reapply_priorities h = call (Call.prioritize_files (priorities h.focused h)) h

unfoldable pub want_known : Option ℕ → ℕ → Handle → Handle
want_known none i h = h
want_known (some n) i h =
    if ltb i n then reapply_priorities (record h { wanted = add i h.wanted }) else h

unfoldable pub want_file : ℕ → Handle → Handle
want_file i h = want_known h.files i h

unfoldable pub focused_priority : Option ℕ → ℕ → Handle → Handle
focused_priority none prio h = h
focused_priority (some i) prio h = call (Call.file_priority i prio) h

-- `_set_focused_priority`
unfoldable pub set_focused_priority : ℕ → Handle → Handle
set_focused_priority prio h = focused_priority h.focused prio h

unfoldable pub mark_active : Handle → Handle
mark_active h =
    let a = record h { active = suc h.active } in
    if suc h.active == 1 then set_focused_priority active_file_prio a else a

unfoldable pub mark_idle : Handle → Handle
mark_idle h =
    let a = record h { active = h.active - 1 } in
    if h.active - 1 == 0 then set_focused_priority idle_file_prio a else a

unfoldable pub boost_piece : ℕ → ℕ → Bool → Handle → Handle
boost_piece piece deadline keep_existing h =
    if keep_existing && contains piece h.boosted
    then h
    else (let p =
          call (Call.set_piece_deadline piece deadline) (call (Call.piece_priority piece 7) h) in
        record p { boosted = add piece h.boosted })

-- The loop of `refocus`; `have` is `have_piece`.
unfoldable pub unrush : (ℕ → Bool) → List ℕ → List Call → List Call
unrush have [] calls = calls
unrush have (p ∷ pieces) calls =
    let rest = unrush have pieces in
    if have p
    then rest calls
    else rest (Call.reset_piece_deadline p ∷ Call.piece_priority p 4 ∷ calls)

unfoldable pub refocus : (ℕ → Bool) → Handle → Handle
refocus have h = record h { boosted = []; calls = unrush have h.boosted h.calls }

unfoldable pub arm_all : List ℕ → List Call → List Call
arm_all [] calls = calls
arm_all (p ∷ pieces) calls = arm_all pieces (Call.piece_priority p idle_file_prio ∷ calls)

unfoldable pub prefetch_arm : List ℕ → Handle → Handle
prefetch_arm pieces h = record h { calls = arm_all pieces h.calls }

unfoldable pub mark_prefetched : ℕ → Handle → Handle
mark_prefetched i h = record h { prefetched = add i h.prefetched }

-- `note_read_position`
unfoldable pub note_read_position : ℕ → ℕ → Handle → Handle
note_read_position pos total h = record h { read_pos = pos; read_total = total }

-- `_full_priority` of the engine; `pieces` is the number of the torrent's pieces.
unfoldable pub full_priority : ℕ → Handle → Handle
full_priority pieces h =
    let w = want_all_files h in
    if ltb 0 pieces then call (Call.prioritize_pieces (repeat 1 pieces)) w else w

unfoldable pub pin_known : Option ℕ → ℕ → Handle → Handle
pin_known none pieces h = h
pin_known (some n) pieces h =
    if is_none h.wanted then full_priority pieces h else reapply_priorities h

-- What `pin` of the engine does to the handle, once it has room.
unfoldable pub pin_handle : ℕ → Handle → Handle
pin_handle pieces h = pin_known h.files pieces (record h { pinned = true })

-- What `unpin` of the engine does to the handle.
unfoldable pub unpin_handle : Handle → Handle
unpin_handle h = reapply_priorities (record h { pinned = false })
