-- ===== src/Playback/Snapshot.antt =====
-- `snapshot` of src/stremiosrv/playback_sessions.py: the rows of the activity page.
use mathlib.Core.List.Perm
use mathlib.Core.List.{Perm}
use stremio_libtorrent_serve.Base.{
  ℕ, ◌-◌, ◌≤◌, subst, Bool, true, false, not, ◌&&◌, List, [], ◌∷◌, String, string_key, Dict, IsDict,
  keep, arith, leb, Bool-cases, inl, inr, if◌then◌else◌,
}
use stremio_libtorrent_serve.Playback.Sessions.{
  Session, Registry, Activity, Client, is_stale, prune,
}
use stremio_libtorrent_serve.Playback.Pruning.{prune-sessions}

pub record Row : Type 0 where
  pub session_id : String
  pub session : Session
  pub active : Bool
  pub age : ℕ
  pub idle : ℕ

unfoldable pub is_ended : Activity → Bool
is_ended Activity.ended = true
is_ended _ = false

unfoldable pub is_ffmpeg : Client → Bool
is_ffmpeg Client.ffmpeg = true
is_ffmpeg _ = false

-- The number is the active window.
unfoldable pub is_active : ℕ → ℕ → Session → Bool
is_active window now s =
    leb (now - s.last_activity) window && (not (is_ended s.state) && not (is_ffmpeg s.client))

unfoldable pub row_of : ℕ → ℕ → String × Session → Row
row_of window now (sid, s) = record {
  session_id = sid;
  session = s;
  active = is_active window now s;
  age = now - s.started_at;
  idle = now - s.last_activity;
}

unfoldable pub rows_of : ℕ → ℕ → Dict String Session → List Row
rows_of window now [] = []
rows_of window now (p ∷ sessions) = row_of window now p ∷ rows_of window now sessions

-- `rows.sort(key=lastActivity, reverse=True)`: stable as well.
unfoldable pub place : Row → List Row → List Row
place r [] = r ∷ []
place r (q ∷ rows) =
    let rest = place r rows in
    if leb q.session.last_activity r.session.last_activity then r ∷ q ∷ rows else q ∷ rest

unfoldable pub sort_rows : List Row → List Row
sort_rows [] = []
sort_rows (r ∷ rows) = place r (sort_rows rows)

pub record Page : Type 0 where
  pub sessions : List Row
  pub active : List Row

unfoldable pub snapshot : ℕ → ℕ → ℕ → Registry → Registry × Page
snapshot window retention now r =
    let r' = prune retention now r in
    let rows = sort_rows (rows_of window now r'.sessions) in
    (r', record { sessions = rows; active = keep (λ q. q.active) rows })

-- No row of the list was active after the time `t`.
abbrev pub Until : ℕ → List Row → Type 0
Until t [] = Unit {0}
Until t (q ∷ rows) = (q.session.last_activity ≤ t) × Until t rows

abbrev pub Latest : List Row → Type 0
Latest [] = Unit {0}
Latest (q ∷ rows) = Until q.session.last_activity rows × Latest rows

Until-mono : (s t : ℕ) (rows : List Row) → s ≤ t → Until s rows → Until t rows
Until-mono s t [] h u = tt
Until-mono s t (q ∷ rows) h u = (omega arith, Until-mono s t rows h u.1)

place-Until :
    (t : ℕ) (r : Row) (rows : List Row)
    → r.session.last_activity ≤ t
    → Until t rows
    → Until t (place r rows)
unfolding place
place-Until t r [] h u = (h, tt)
place-Until t r (q ∷ rows) h u =
    elim (Bool-cases (leb q.session.last_activity r.session.last_activity)) [
      | inl e ↦ rw e (h, u)
      | inr e ↦ rw e (u.0, place-Until t r rows h u.1)
    ]

place-Latest : (r : Row) (rows : List Row) → Latest rows → Latest (place r rows)
unfolding place
place-Latest r [] l = (tt, tt)
place-Latest r (q ∷ rows) l =
    elim (Bool-cases (leb q.session.last_activity r.session.last_activity)) [
      | inl e ↦ rw e ((ground arith, Until-mono _ _ rows (ground arith) l.0), l)
      | inr e ↦ rw e (place-Until _ r rows (ground arith) l.0, place-Latest r rows l.1)
    ]

sort-Latest : (rows : List Row) → Latest (sort_rows rows)
unfolding sort_rows
sort-Latest [] = tt
sort-Latest (r ∷ rows) = place-Latest r (sort_rows rows) (sort-Latest rows)

place-perm : (r : Row) (rows : List Row) → Perm (place r rows) (r ∷ rows)
unfolding place
place-perm r [] = Perm.refl _
place-perm r (q ∷ rows) = elim (Bool-cases (leb q.session.last_activity r.session.last_activity)) [
  | inl e ↦ rw e (Perm.refl _)
  | inr e ↦ rw e (Perm.trans (Perm.cons q (place-perm r rows)) (Perm.swap r q rows))
]

sort-perm : (rows : List Row) → Perm (sort_rows rows) rows
unfolding sort_rows
sort-perm [] = Perm.refl _
sort-perm (r ∷ rows) = Perm.trans (place-perm r (sort_rows rows)) (Perm.cons r (sort-perm rows))

-- The page: its rows are those of the sessions that are not stale, the latest first.
abbrev pub Shows : ℕ → ℕ → ℕ → Registry → Page → Type 0
Shows window retention now r page =
    Perm page.sessions
      (rows_of window now (keep (λ p. not (is_stale retention now p.1)) r.sessions))
    × Latest page.sessions

-- A snapshot shows exactly the sessions that are not stale, once each, the latest activity first.
pub snapshot-Shows :
    (window retention now : ℕ) (r : Registry)
    → IsDict r.sessions
    → Shows window retention now r (snapshot window retention now r).1
unfolding snapshot
snapshot-Shows window retention now r h =
    let rows = rows_of window now (prune retention now r).sessions in
    (
      subst (λ d. Perm (sort_rows rows) (rows_of window now d)) (prune-sessions retention now r h)
          (sort-perm rows),
      sort-Latest rows,
    )
