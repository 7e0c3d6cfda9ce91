-- ===== src/Library/Session/Lifetime.antt =====
-- Browser sessions, from signing in until they expire or sign out.
use stremio_libtorrent_serve.Base.{
  ℕ, ◌+◌, ◌<◌, ◌≡◌, ◌≢◌, refl, sym, ap, ◌∙◌, inl, inr, true, false, [], ◌∷◌, Option, none, some,
  String, string_key, str_discrete, Dict, lookup, lookup-insert_same, lookup-insert_other,
  lookup-erase_same, lookup-erase_other, keep, arith, ltb, Bool-cases, if_neg,
}
use stremio_libtorrent_serve.Library.Session.{
  Entry, State, load_state, is_equal, is_blank, with_sessions, new_session, is_live, has_live,
  all_live, reap, verify_session, drop_found, drop_session,
}

-- Live sessions are not touched by the reaping of the others.
lookup-keep_live :
    (now : ℕ) (sid : String) (d : Dict String Entry)
    → has_live now (lookup sid d) ≡ true
    → lookup sid (keep (λ p. is_live now p.1) d) ≡ lookup sid d
unfolding lookup keep has_live
lookup-keep_live now sid [] h = refl
lookup-keep_live now sid ((k, e) ∷ d) h = elim (str_discrete sid k) [
  | yes p ↦ ground (arith, p, h)
  | no p ↦ ground (arith, p, h, lookup-keep_live now sid d)
]

reap-lookup :
    (now : ℕ) (sid : String) (file : Option State)
    → has_live now (lookup sid (load_state file).sessions) ≡ true
    → lookup sid (load_state (reap now file)).sessions ≡ lookup sid (load_state file).sessions
unfolding reap load_state with_sessions
reap-lookup now sid file h = elim (Bool-cases (all_live now (load_state file).sessions)) [
  | inl e ↦ rw (e, reap) refl
  | inr e ↦ rw (e, reap) (lookup-keep_live now sid (load_state file).sessions h)
]

-- Requests of other browsers, and verifications of any session before the time.
pub data Elsewhere (sid : String) (until : ℕ) : Option State → Option State → Type 0 where
  none_yet : (file : Option State) → Elsewhere sid until file file
  verifying :
      (other : String) (now : ℕ) (a b : Option State)
      → now < until
      → Elsewhere sid until (verify_session other now a).0 b
      → Elsewhere sid until a b
  signing_in :
      (other : String) (now ttl : ℕ) (a b : Option State)
      → other ≢ sid
      → Elsewhere sid until (new_session other now ttl a) b
      → Elsewhere sid until a b
  signing_out :
      (other : String) (a b : Option State)
      → other ≢ sid
      → Elsewhere sid until (drop_session other a) b
      → Elsewhere sid until a b

abbrev pub entry_of : String → Option State → Option Entry
entry_of sid file = lookup sid (load_state file).sessions

reap-entry :
    (sid : String) (now until : ℕ) (file : Option State)
    → now < until
    → entry_of sid file ≡ some (Entry.expires until)
    → entry_of sid (reap now file) ≡ some (Entry.expires until)
unfolding has_live is_live
reap-entry sid now until file h e =
    let t : ltb now until ≡ true = ground arith in
    reap-lookup now sid file (ap (has_live now) e ∙ t) ∙ e

verify-entry :
    (sid other : String) (now until : ℕ) (file : Option State)
    → now < until
    → entry_of sid file ≡ some (Entry.expires until)
    → entry_of sid (verify_session other now file).0 ≡ some (Entry.expires until)
unfolding verify_session
verify-entry sid other now until file h e = elim (Bool-cases (is_blank other)) [
  | inl b ↦ rw b e
  | inr b ↦ rw b (reap-entry sid now until file h e)
]

drop_found-entry :
    (sid other : String) (o : Option Entry) (file : Option State)
    → other ≢ sid
    → entry_of sid (drop_found o other (load_state file) file) ≡ entry_of sid file
unfolding drop_found load_state with_sessions
drop_found-entry sid other none file h = refl
drop_found-entry sid other (some Entry.null) file h = refl
drop_found-entry sid other (some Entry.other) file h =
    lookup-erase_other other sid _ (λ q. h (sym q))
drop_found-entry sid other (some (Entry.expires n)) file h =
    lookup-erase_other other sid _ (λ q. h (sym q))

Elsewhere-entry :
    (sid : String) (until : ℕ) (a b : Option State)
    → Elsewhere sid until a b
    → entry_of sid a ≡ some (Entry.expires until)
    → entry_of sid b ≡ some (Entry.expires until)
unfolding new_session with_sessions load_state drop_session
Elsewhere-entry sid until a b (Elsewhere.none_yet file) e = e
Elsewhere-entry sid until a b (Elsewhere.verifying other now a' b' h rest) e =
    Elsewhere-entry sid until _ b rest (verify-entry sid other now until a h e)
Elsewhere-entry sid until a b (Elsewhere.signing_in other now ttl a' b' h rest) e =
    Elsewhere-entry sid until _ b rest (
      lookup-insert_other other sid (Entry.expires (now + ttl)) (load_state a).sessions
        (λ q. h (sym q))
      ∙ e)
Elsewhere-entry sid until a b (Elsewhere.signing_out other a' b' h rest) e =
    Elsewhere-entry sid until _ b rest
      (drop_found-entry sid other (lookup other (load_state a).sessions) a h ∙ e)

new_session-entry :
    (sid : String) (now ttl : ℕ) (file : Option State)
    → entry_of sid (new_session sid now ttl file) ≡ some (Entry.expires (now + ttl))
unfolding new_session with_sessions load_state
new_session-entry sid now ttl file =
    lookup-insert_same sid (Entry.expires (now + ttl)) (load_state file).sessions

-- A session that was created is valid at exactly the times before it expires, whatever other
-- browsers sign in, are verified or sign out in between, and however often it is verified itself.
pub verify_session-lifetime :
    (sid : String) (now ttl later : ℕ) (file after : Option State)
    → sid ≢ ""
    → Elsewhere sid (now + ttl) (new_session sid now ttl file) after
    → (verify_session sid later after).1 ≡ ltb later (now + ttl)
unfolding verify_session has_live is_live is_blank is_equal
verify_session-lifetime sid now ttl later file after named steps =
    let e = Elsewhere-entry sid (now + ttl) _ after steps (new_session-entry sid now ttl file) in
    rw (if_neg (str_discrete sid "") named true false) (ap (has_live later) e)

drop_found-gone :
    (sid : String) (now : ℕ) (o : Option Entry) (file : Option State)
    → entry_of sid file ≡ o
    → has_live now (entry_of sid (drop_found o sid (load_state file) file)) ≡ false
unfolding drop_found load_state with_sessions has_live is_live
drop_found-gone sid now none file e = ap (has_live now) e
drop_found-gone sid now (some Entry.null) file e = ap (has_live now) e
drop_found-gone sid now (some Entry.other) file e = ap (has_live now) (lookup-erase_same sid _)
drop_found-gone sid now (some (Entry.expires n)) file e =
    ap (has_live now) (lookup-erase_same sid _)

-- A session that was signed out is valid at no time.
pub verify_session-drop :
    (sid : String) (later : ℕ) (file : Option State)
    → (verify_session sid later (drop_session sid file)).1 ≡ false
unfolding verify_session drop_session
verify_session-drop sid later file = elim (Bool-cases (is_blank sid)) [
  | inl b ↦ rw b refl
  | inr b ↦ rw b (drop_found-gone sid later (lookup sid (load_state file).sessions) file refl)
]
