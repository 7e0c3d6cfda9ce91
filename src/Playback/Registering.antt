-- ===== src/Playback/Registering.antt =====
-- What registering and ending an HLS job promise to the requests that follow.
use stremio_libtorrent_serve.Base.{
  ℕ, ◌≡◌, refl, sym, ap, subst, ◌∙◌, inl, inr, true, false, some-injective, List, [], ◌∷◌, Option,
  none, some, String, string_key, str_discrete, Dict, lookup, insert, lookup-insert_same,
  lookup-erase_same, lookup-erase_other, IsDict, insert-IsDict, arith, Bool-cases, Option-cases,
  if_pos, if_neg,
}
use stremio_libtorrent_serve.Playback.Sessions.{
  Session, Registry, is_stale, stale_ids, is_text, drop_job, drop_job_of, drop_found, drop_all,
  prune, change_found, change, Request, hls_session, reported, new_hls, register_found,
  register_named, register_hls_job, change_named, touch_hls, finished, end_hls,
}
use stremio_libtorrent_serve.Playback.Pruning.{Unnamed, stale_ids-Unnamed}
use stremio_libtorrent_serve.Playback.Invariant.{Inv}

-- The job stands for a session that is there.
abbrev pub Registered : String → String → Registry → Type 0
Registered job sid r =
    (lookup job r.jobs ≡ some sid) × (s : Session) × (lookup sid r.sessions ≡ some s)

drop_job-keeps :
    (sid other job : String) (o : Option String) (jobs : Dict String String) (name : String)
    → ¬ (sid ≡ other)
    → lookup name jobs ≡ o
    → lookup job jobs ≡ some sid
    → lookup job (drop_job other name o jobs) ≡ some sid
unfolding drop_job
drop_job-keeps sid other job none jobs name h e m = m
drop_job-keeps sid other job (some owner) jobs name h e m = elim (str_discrete owner other) [
  | yes p ↦
      let differs : ¬ (job ≡ name) = λ q. h (
        some-injective (sym m ∙ (subst (λ x. lookup x jobs ≡ some owner) (sym q) e ∙ ap some p))) in
      ground (arith, p, lookup-erase_other name job jobs differs, m)
  | no p ↦ ground (arith, p, m)
]

drop_job_of-keeps :
    (sid other job : String) (o : Option String) (jobs : Dict String String)
    → ¬ (sid ≡ other)
    → lookup job jobs ≡ some sid
    → lookup job (drop_job_of other o jobs) ≡ some sid
unfolding drop_job_of
drop_job_of-keeps sid other job none jobs h m = m
drop_job_of-keeps sid other job (some name) jobs h m =
    drop_job-keeps sid other job (lookup name jobs) jobs name h refl m

drop_found-Registered :
    (job sid other : String) (o : Option Session) (r : Registry)
    → ¬ (sid ≡ other)
    → Registered job sid r
    → Registered job sid (drop_found other o r)
unfolding drop_found
drop_found-Registered job sid other none r h reg = reg
drop_found-Registered job sid other (some s) r h reg = (
  drop_job_of-keeps sid other job s.job_id r.jobs h reg.0,
  reg.1,
  lookup-erase_other other sid r.sessions h ∙ reg.2,
)

drop_all-Registered :
    (job sid : String) (sids : List String) (r : Registry)
    → Unnamed sid sids
    → Registered job sid r
    → Registered job sid (drop_all sids r)
unfolding drop_all
drop_all-Registered job sid [] r h reg = reg
drop_all-Registered job sid (other ∷ sids) r h reg =
    drop_all-Registered job sid sids _ h.1
      (drop_found-Registered job sid other (lookup other r.sessions) r h.0 reg)

-- A session that is not stale is not among those to drop.
fresh-Unnamed :
    (retention now : ℕ) (k : String) (s : Session) (d : Dict String Session)
    → IsDict d
    → lookup k d ≡ some s
    → is_stale retention now s ≡ false
    → Unnamed k (stale_ids retention now d)
unfolding stale_ids lookup
fresh-Unnamed retention now k s [] h e f = tt
fresh-Unnamed retention now k s ((q, t) ∷ d) h e f = elim (str_discrete k q) [
  | yes p ↦
      let same : t ≡ s =
        some-injective (sym (if_pos (str_discrete k q) p (some t) (lookup k d)) ∙ e) in
      let fresh : is_stale retention now t ≡ false = ap (is_stale retention now) same ∙ f in
      rw fresh (stale_ids-Unnamed retention now k d (subst (λ x. lookup x d ≡ none) (sym p) h.0))
  | no p ↦
      let e' : lookup k d ≡ some s = sym (if_neg (str_discrete k q) p (some t) (lookup k d)) ∙ e in
      let rest = fresh-Unnamed retention now k s d h.1 e' f in
      elim (Bool-cases (is_stale retention now t)) [ inl b ↦ rw b (p, rest) | inr b ↦ rw b rest ]
]

new_hls-Registered :
    (retention now : ℕ) (fresh : String) (q : Request) (r : Registry)
    → Inv r
    → Registered q.job_id fresh (new_hls retention now fresh q r)
unfolding new_hls prune is_stale hls_session
new_hls-Registered retention now fresh q r inv =
    let d = insert fresh (hls_session now q) r.sessions in
    let e = lookup-insert_same fresh (hls_session now q) r.sessions in
    drop_all-Registered q.job_id fresh (stale_ids retention now d) _
      (fresh-Unnamed retention now fresh (hls_session now q) d
        (insert-IsDict fresh (hls_session now q) r.sessions inv.sessions_dict) e (ground arith))
      (lookup-insert_same q.job_id fresh r.jobs, hls_session now q, e)

register_found-Registered :
    (retention now : ℕ) (fresh : String) (q : Request) (sid : String) (o : Option Session)
    (r : Registry)
    → Inv r
    → lookup q.job_id r.jobs ≡ some sid
    → let out = register_found retention now fresh q sid o r in Registered q.job_id out.1 out.0
unfolding register_found
register_found-Registered retention now fresh q sid none r inv e =
    new_hls-Registered retention now fresh q r inv
register_found-Registered retention now fresh q sid (some s) r inv e =
    (e, reported now q.workload_id s, lookup-insert_same sid _ r.sessions)

register_named-Registered :
    (retention now : ℕ) (fresh : String) (q : Request) (o : Option String) (r : Registry)
    → Inv r
    → lookup q.job_id r.jobs ≡ o
    → let out = register_named retention now fresh q o r in Registered q.job_id out.1 out.0
unfolding register_named
register_named-Registered retention now fresh q none r inv e =
    new_hls-Registered retention now fresh q r inv
register_named-Registered retention now fresh q (some sid) r inv e =
    elim (Bool-cases (is_text sid)) [
      | inl b ↦
          rw b (register_found-Registered retention now fresh q sid (lookup sid r.sessions) r inv e)
      | inr b ↦ rw b (new_hls-Registered retention now fresh q r inv)
    ]

-- Whatever was pruned on the way, the id that registering a job returns is that of a session in the
-- registry, and the job stands for it.
pub register_hls_job-Registered :
    (retention now : ℕ) (fresh : String) (q : Request) (r : Registry)
    → Inv r
    → let out = register_hls_job retention now fresh q r in Registered q.job_id out.1 out.0
unfolding register_hls_job
register_hls_job-Registered retention now fresh q r inv =
    register_named-Registered retention now fresh q (lookup q.job_id r.jobs) r inv refl

-- A job that is registered keeps its session: another request for it gets the same id.
pub register_hls_job-same :
    (retention now : ℕ) (fresh sid : String) (q : Request) (r : Registry)
    → is_text sid ≡ true
    → Registered q.job_id sid r
    → (register_hls_job retention now fresh q r).1 ≡ sid
unfolding register_hls_job register_named register_found
register_hls_job-same retention now fresh sid q r named reg = rw (reg.0, named, reg.2) refl

change_named-jobs :
    (o : Option String) (f : Session → Session) (r : Registry) → (change_named o f r).jobs ≡ r.jobs
unfolding change_named change change_found
change_named-jobs none f r = refl
change_named-jobs (some sid) f r = elim (Bool-cases (is_text sid)) [
  | inl e ↦ elim (Option-cases (lookup sid r.sessions)) [
    | inl n ↦ rw (e, n) refl
    | inr (s, n) ↦ rw (e, n) refl
  ]
  | inr e ↦ rw e refl
]

ended-job : (now : ℕ) (job : String) (r : Registry) → lookup job (end_hls now job r).jobs ≡ none
unfolding end_hls
ended-job now job r =
    ap (lookup job) (change_named-jobs (lookup job r.jobs) (finished now) _)
    ∙ lookup-erase_same job r.jobs

-- A segment request that arrives after its job was ended changes nothing: it cannot make the session
-- play again.
pub touch_hls-end_hls :
    (now later : ℕ) (job agent : String) (r : Registry)
    → touch_hls later job agent (end_hls now job r) ≡ end_hls now job r
unfolding touch_hls change_named
touch_hls-end_hls now later job agent r =
    let gone : lookup job (end_hls now job r).jobs ≡ none = ended-job now job r in rw gone refl
