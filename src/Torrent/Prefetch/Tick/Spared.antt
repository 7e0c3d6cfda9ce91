-- ===== src/Torrent/Prefetch/Tick/Spared.antt =====
-- The effect of a tick on the handle.
use stremio_libtorrent_serve.Base.{
  ℕ, ◌≡◌, refl, Bool, true, false, not, ◌&&◌, List, [], ◌∷◌, Option, none, some, arith,
  if◌then◌else◌, add, contains, number_key, true≢false,
}
use stremio_libtorrent_serve.Torrent.Handle.{
  Call, Handle, is_active, is_focus, arm_all, prefetch_arm, mark_prefetched,
}
use stremio_libtorrent_serve.Torrent.Prefetch.{
  FileSlot, position_reached, file_at, next_video_index,
}
use stremio_libtorrent_serve.Torrent.Prefetch.Tick.{
  FileStorage, Seen, Settings, file_complete, next_pieces, Tick, idle, armed, arm, consider,
  tick_storage, tick_focus, prefetch_tick,
}
use stremio_libtorrent_serve.Torrent.Prefetch.Tick.Covering.{
  Covers, Each, CoversNext, next_pieces-Covers, file_complete-have,
}

-- Calls behind old ones that only give pieces the lowest priority, each of them a piece of the next
-- file, and none a piece of the watched file that is still to come.
pub data Quiet (have : ℕ → Bool) (plen : ℕ) (watched next : FileSlot) (old : List Call)
    : List Call → Type 0 where
  none_yet : Quiet have plen watched next old old
  low :
      (p : ℕ) (calls : List Call)
      → Covers plen next p
      → (Covers plen watched p → have p ≡ true)
      → Quiet have plen watched next old calls
      → Quiet have plen watched next old (Call.piece_priority p 1 ∷ calls)

arm_all-Quiet :
    {have : ℕ → Bool} {plen : ℕ} {watched next : FileSlot} {old : List Call} (pieces : List ℕ)
    (calls : List Call)
    → ((p : ℕ) → Covers plen watched p → have p ≡ true)
    → Each (Covers plen next) pieces
    → Quiet have plen watched next old calls
    → Quiet have plen watched next old (arm_all pieces calls)
unfolding arm_all
arm_all-Quiet [] calls there each q = q
arm_all-Quiet (p ∷ pieces) calls there (e, es) q =
    arm_all-Quiet pieces (Call.piece_priority p 1 ∷ calls) there es (low p calls e (there p) q)

-- What a tick that asks for pieces leaves, and what held before it.
pub record Leaves (seen : Seen) (h after : Handle) : Type 0 where
  pub active : is_active h ≡ true
  pub storage : FileStorage
  pub idx : ℕ
  pub next_idx : ℕ
  pub watched : FileSlot
  pub next : FileSlot
  pub known : seen.storage ≡ some storage
  pub in_focus : h.focused ≡ some idx
  pub is_watched : file_at idx storage.files ≡ some watched
  pub is_complete : file_complete seen.have storage.plen (some watched) ≡ true
  pub follows : next_video_index storage.files idx ≡ some next_idx
  pub is_next : file_at next_idx storage.files ≡ some next
  pub marked : after.prefetched ≡ add next_idx h.prefetched
  pub quiet : Quiet seen.have storage.plen watched next h.calls after.calls
  pub same_focus : after.focused ≡ h.focused
  pub same_wanted : after.wanted ≡ h.wanted
  pub same_boosted : after.boosted ≡ h.boosted

abbrev pub Spares : Seen → Handle → Tick → Type 0
Spares seen h idle = Unit {0}
Spares seen h (armed after resumed planned) = Leaves seen h after

Spares-if :
    (seen : Seen) (h : Handle) (b : Bool) (t : Tick)
    → (b ≡ true → Spares seen h t)
    → Spares seen h (if b then t else idle)
Spares-if seen h true t k = k refl
Spares-if seen h false t k = tt

Spares-unless :
    (seen : Seen) (h : Handle) (b : Bool) (t : Tick)
    → (b ≡ false → Spares seen h t)
    → Spares seen h (if b then idle else t)
Spares-unless seen h true t k = tt
Spares-unless seen h false t k = k refl

arm-Spares :
    (seen : Seen) (h : Handle) (st : FileStorage) (idx i : ℕ) (watched next : FileSlot)
    (pieces : List ℕ)
    → is_active h ≡ true
    → seen.storage ≡ some st
    → h.focused ≡ some idx
    → file_at idx st.files ≡ some watched
    → file_complete seen.have st.plen (some watched) ≡ true
    → next_video_index st.files idx ≡ some i
    → file_at i st.files ≡ some next
    → Each (Covers st.plen next) pieces
    → Spares seen h (arm seen st.plen i pieces h)
unfolding arm prefetch_arm mark_prefetched
arm-Spares seen h st idx i watched next [] a k f w c e n each = tt
arm-Spares seen h st idx i watched next (p ∷ pieces) a k f w c e n each = record {
  active = a;
  storage = st;
  idx = idx;
  next_idx = i;
  watched = watched;
  next = next;
  known = k;
  in_focus = f;
  is_watched = w;
  is_complete = c;
  follows = e;
  is_next = n;
  marked = refl;
  quiet =
      arm_all-Quiet (p ∷ pieces) h.calls (file_complete-have seen.have st.plen watched c) each
        none_yet;
  same_focus = refl;
  same_wanted = refl;
  same_boosted = refl;
}

arm_next-Spares :
    (o : Settings) (seen : Seen) (h : Handle) (st : FileStorage) (idx i : ℕ)
    (watched next : Option FileSlot)
    → is_active h ≡ true
    → seen.storage ≡ some st
    → h.focused ≡ some idx
    → file_at idx st.files ≡ watched
    → not (file_complete seen.have st.plen watched) ≡ false
    → next_video_index st.files idx ≡ some i
    → file_at i st.files ≡ next
    → Spares seen h (arm seen st.plen i (next_pieces o st.plen next) h)
unfolding next_pieces file_complete
arm_next-Spares o seen h st idx i none next a k f w c e n = absurd (true≢false c)
arm_next-Spares o seen h st idx i (some watched) none a k f w c e n = unfold arm in tt
arm_next-Spares o seen h st idx i (some watched) (some next) a k f w c e n =
    arm-Spares seen h st idx i watched next _ a k f w (ground (arith, c)) e n
      (unfold CoversNext in next_pieces-Covers o st.plen (some next))

consider-Spares :
    (o : Settings) (seen : Seen) (h : Handle) (st : FileStorage) (idx : ℕ) (next : Option ℕ)
    → is_active h ≡ true
    → seen.storage ≡ some st
    → h.focused ≡ some idx
    → next_video_index st.files idx ≡ next
    → Spares seen h (consider o seen st idx next h)
unfolding consider
consider-Spares o seen h st idx none a k f e = tt
consider-Spares o seen h st idx (some next) a k f e =
    let watched = file_at idx st.files in
    let asked = arm seen st.plen next (next_pieces o st.plen (file_at next st.files)) h in
    let unfocused = if is_focus seen.focus_later idx then asked else idle in
    let partial = not (file_complete seen.have st.plen watched) in
    Spares-unless seen h (contains next h.prefetched) (if partial then idle else unfocused) λ fresh.
      Spares-unless seen h partial unfocused λ c.
        Spares-if seen h (is_focus seen.focus_later idx) asked λ same.
          arm_next-Spares o seen h st idx next watched (file_at next st.files) a k f refl c e refl

tick_storage-Spares :
    (o : Settings) (seen : Seen) (h : Handle) (idx : ℕ) (storage : Option FileStorage)
    → is_active h ≡ true
    → h.focused ≡ some idx
    → seen.storage ≡ storage
    → Spares seen h (tick_storage o seen storage idx h)
unfolding tick_storage
tick_storage-Spares o seen h idx none a f k = tt
tick_storage-Spares o seen h idx (some st) a f k =
    consider-Spares o seen h st idx (next_video_index st.files idx) a k f refl

tick_focus-Spares :
    (o : Settings) (seen : Seen) (h : Handle) (focus : Option ℕ)
    → is_active h ≡ true
    → h.focused ≡ focus
    → Spares seen h (tick_focus o seen focus h)
unfolding tick_focus
tick_focus-Spares o seen h none a f = tt
tick_focus-Spares o seen h (some idx) a f =
    Spares-if seen h (position_reached h.read_pos h.read_total o.trigger) _
      λ reached. tick_storage-Spares o seen h idx seen.storage a f refl

-- A tick that asks for pieces does so behind a file in focus that is being watched and has all of
-- its pieces. It asks only for pieces of the next video, at the lowest priority, and
-- for none of the watched file that is still to come; focus, wanted files and deadlines stay.
pub prefetch_tick-Spares :
    (o : Settings) (seen : Seen) (h : Handle) → Spares seen h (prefetch_tick o seen h)
unfolding prefetch_tick
prefetch_tick-Spares o seen h =
    Spares-if seen h (is_active h && seen.has_metadata) _
      λ a. tick_focus-Spares o seen h h.focused (ground (arith, a)) refl
