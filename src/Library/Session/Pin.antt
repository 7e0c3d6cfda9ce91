-- ===== src/Library/Session/Pin.antt =====
-- The pin of the account that owns the server, with no owner configured.
use stremio_libtorrent_serve.Base.{
  ℕ, ◌≡◌, ◌≢◌, refl, sym, ap, subst, ◌∙◌, inl, inr, true, false, true≢false, [], Option, none, some,
  String, string_key, str_discrete, lookup, Bool-cases, ite, if_pos, if_neg,
}
use stremio_libtorrent_serve.Library.Session.{
  Entry, State, load_state, User, is_equal, is_blank, owner_matches, Entrance, with_owner,
  claim_owner, with_sessions, new_session, all_live, reap, verify_session, drop_found, drop_session,
  with_token, ensure_addon_token, reset_addon_token,
}

-- A request to the server, with no owner configured.
pub data Step : Option State → Option State → Type 0 where
  claiming : (user : User) (file : Option State) → Step file (claim_owner user "" file).0
  signing_in :
      (sid : String) (now ttl : ℕ) (file : Option State) → Step file (new_session sid now ttl file)
  verifying :
      (sid : String) (now : ℕ) (file : Option State) → Step file (verify_session sid now file).0
  signing_out : (sid : String) (file : Option State) → Step file (drop_session sid file)
  ensuring : (fresh : String) (file : Option State) → Step file (ensure_addon_token fresh file).0
  resetting : (fresh : String) (file : Option State) → Step file (reset_addon_token fresh file).0

pub data Steps : Option State → Option State → Type 0 where
  done : (file : Option State) → Steps file file
  more : (a b c : Option State) → Step a b → Steps b c → Steps a c

abbrev pub owner : Option State → String
owner file = (load_state file).owner_id

is_equal_refl : (s : String) → is_equal s s ≡ true
unfolding is_equal
is_equal_refl s = if_pos (str_discrete s s) refl true false

is_equal→ : (s t : String) → is_equal s t ≡ true → s ≡ t
unfolding is_equal
is_equal→ s t h = elim (str_discrete s t) [
  | yes p ↦ p
  | no p ↦ absurd (true≢false (sym h ∙ if_neg (str_discrete s t) p true false))
]

is_equal_no : (s t : String) → ¬ (s ≡ t) → is_equal s t ≡ false
unfolding is_equal
is_equal_no s t h = if_neg (str_discrete s t) h true false

is_blank_no : (s : String) → s ≢ "" → is_blank s ≡ false
unfolding is_blank is_equal
is_blank_no s h = if_neg (str_discrete s "") h true false

is_blank-empty : is_blank "" ≡ true
unfolding is_blank is_equal str_discrete
is_blank-empty = refl

claim_owner-owner :
    (user : User) (file : Option State)
    → owner file ≢ ""
    → owner (claim_owner user "" file).0 ≡ owner file
unfolding claim_owner owner_matches load_state with_owner
claim_owner-owner user file h =
    let blank_no = is_blank_no (owner file) h in
    rw (is_blank-empty, blank_no)
      (elim (Bool-cases (is_equal user.id (owner file))) [
        | inl e ↦
            let same : is_equal (owner file) user.id ≡ true =
              subst (λ x. is_equal x user.id ≡ true) (is_equal→ user.id (owner file) e)
                (is_equal_refl user.id) in
            elim (Bool-cases (is_blank user.id)) [
              | inl b ↦ rw (e, b) refl
              | inr b ↦ rw (e, b, same) refl
            ]
        | inr e ↦ rw e refl
      ])

reap-owner : (now : ℕ) (file : Option State) → owner (reap now file) ≡ owner file
unfolding reap load_state with_sessions
reap-owner now none = elim (Bool-cases (all_live now [])) [ inl e ↦ rw e refl | inr e ↦ rw e refl ]
reap-owner now (some s) = elim (Bool-cases (all_live now s.sessions)) [
  | inl e ↦ rw e refl
  | inr e ↦ rw e refl
]

drop_found-owner :
    (o : Option Entry) (sid : String) (file : Option State)
    → owner (drop_found o sid (load_state file) file) ≡ owner file
unfolding drop_found load_state with_sessions
drop_found-owner none sid file = refl
drop_found-owner (some Entry.null) sid file = refl
drop_found-owner (some Entry.other) sid file = refl
drop_found-owner (some (Entry.expires n)) sid file = refl

ensure_addon_token-owner :
    (fresh : String) (file : Option State) → owner (ensure_addon_token fresh file).0 ≡ owner file
unfolding ensure_addon_token with_token load_state
ensure_addon_token-owner fresh file = elim (Bool-cases (is_blank (load_state file).addon_token)) [
  | inl e ↦ rw e refl
  | inr e ↦ rw e refl
]

Step-owner : (a b : Option State) → Step a b → owner a ≢ "" → owner b ≡ owner a
unfolding new_session verify_session drop_session reset_addon_token load_state with_sessions
    with_token
Step-owner a b (Step.claiming user file) h = claim_owner-owner user a h
Step-owner a b (Step.signing_in sid now ttl file) h = refl
Step-owner a b (Step.verifying sid now file) h = elim (Bool-cases (is_blank sid)) [
  | inl e ↦ rw e refl
  | inr e ↦ rw e (reap-owner now a)
]
Step-owner a b (Step.signing_out sid file) h =
    drop_found-owner (lookup sid (load_state a).sessions) sid a
Step-owner a b (Step.ensuring fresh file) h = ensure_addon_token-owner fresh a
Step-owner a b (Step.resetting fresh file) h = refl

Steps-owner : (a b : Option State) → Steps a b → owner a ≢ "" → owner b ≡ owner a
Steps-owner a b (Steps.done file) h = refl
Steps-owner a c (Steps.more a' b c' step steps) h =
    let e = Step-owner a b step h in Steps-owner b c steps (λ q. h (sym e ∙ q)) ∙ e

claim_owner-first :
    (user : User) (file : Option State)
    → owner file ≡ ""
    → user.id ≢ ""
    → owner (claim_owner user "" file).0 ≡ user.id
unfolding claim_owner owner_matches with_owner load_state
claim_owner-first user file h named =
    let blank : is_blank (owner file) ≡ true = ap is_blank h ∙ is_blank-empty in
    let named_id = is_blank_no user.id named in
    let new : is_equal (owner file) user.id ≡ false =
      is_equal_no (owner file) user.id (λ p. named (sym p ∙ h)) in
    rw (is_blank-empty, blank, named_id, new) refl

claim_owner-later :
    (user : User) (file : Option State)
    → owner file ≢ ""
    → (claim_owner user "" file).1
      ≡ ite (str_discrete user.id (owner file)) (Entrance.admitted user.id) Entrance.not_owner
unfolding claim_owner owner_matches
claim_owner-later user file h =
    let blank_no = is_blank_no (owner file) h in
    elim (str_discrete user.id (owner file)) [
      | yes p ↦
          let e = subst (λ x. is_equal user.id x ≡ true) p (is_equal_refl user.id) in
          let b = is_blank_no user.id (λ q. h (sym p ∙ q)) in
          let same = subst (λ x. is_equal x user.id ≡ true) p (is_equal_refl user.id) in
          rw
            (if_pos (str_discrete user.id (owner file)) p (Entrance.admitted user.id)
              Entrance.not_owner)
            (rw (is_blank-empty, blank_no, e, b, same) refl)
      | no p ↦
          rw
            (if_neg (str_discrete user.id (owner file)) p (Entrance.admitted user.id)
              Entrance.not_owner)
            (rw (is_blank-empty, blank_no, is_equal_no user.id (owner file) p) refl)
    ]

-- With no owner configured, the first account that signs in to a server without an owner keeps it:
-- after any requests that follow, of any accounts and browsers, that account is let in, and every
-- other is not.
pub claim_owner-pinned :
    (first user : User) (file later : Option State)
    → owner file ≡ ""
    → first.id ≢ ""
    → Steps (claim_owner first "" file).0 later
    → (claim_owner user "" later).1
      ≡ ite (str_discrete user.id first.id) (Entrance.admitted user.id) Entrance.not_owner
claim_owner-pinned first user file later h named steps =
    let e = claim_owner-first first file h named in
    let kept : owner later ≡ first.id = Steps-owner _ later steps (λ q. named (sym e ∙ q)) ∙ e in
    subst
      (λ x.
        (claim_owner user "" later).1
        ≡ ite (str_discrete user.id x) (Entrance.admitted user.id) Entrance.not_owner)
      kept (claim_owner-later user later (λ q. named (sym kept ∙ q)))
