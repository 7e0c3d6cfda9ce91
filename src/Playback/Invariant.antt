-- ===== src/Playback/Invariant.antt =====
-- The invariant of the registry's two dictionaries.
use stremio_libtorrent_serve.Base.{
  ℕ, ◌≡◌, refl, inl, inr, none≢some, List, [], ◌∷◌, Option, none, some, String, string_key, lookup,
  IsDict, insert-IsDict, erase-IsDict, Bool-cases,
}
use stremio_libtorrent_serve.Playback.Sessions.{
  Session, Registry, initial, stale_ids, is_text, drop_found, drop_all, prune, open_source,
  change_found, change, with_bytes, note_bytes, closed, close_source, reported, Request,
  hls_session, new_hls, register_found, register_named, register_hls_job, with_agent, change_named,
  touch_hls, finished, end_hls,
}
use stremio_libtorrent_serve.Playback.Owning.{
  Owned, Owned-change, Owned-erase, Owned-new, Owned-job, drop_job_of-IsDict, drop_found-Owned,
}

pub record Inv (r : Registry) : Type 0 where
  pub sessions_dict : IsDict r.sessions
  pub jobs_dict : IsDict r.jobs
  pub owned : Owned r.sessions r.jobs

-- A step of one thread under the registry's lock. A new session's id is one that is not in use, as
-- `uuid4` promises.
pub data Step (retention : ℕ) : Registry → Registry → Type 0 where
  opening :
      (now : ℕ) (sid info_hash : String) (file_idx : ℕ) (agent : String) (r : Registry)
      → lookup sid r.sessions ≡ none
      → Step retention r (open_source retention now sid info_hash file_idx agent r)
  noting :
      (now : ℕ) (sid : String) (count : ℕ) (r : Registry)
      → Step retention r (note_bytes now sid count r)
  closing : (now : ℕ) (sid : String) (r : Registry) → Step retention r (close_source now sid r)
  registering :
      (now : ℕ) (fresh : String) (q : Request) (r : Registry)
      → lookup fresh r.sessions ≡ none
      → Step retention r (register_hls_job retention now fresh q r).0
  touching :
      (now : ℕ) (job agent : String) (r : Registry) → Step retention r (touch_hls now job agent r)
  ending : (now : ℕ) (job : String) (r : Registry) → Step retention r (end_hls now job r)
  pruning : (now : ℕ) (r : Registry) → Step retention r (prune retention now r)

pub data Reach (retention : ℕ) : Registry → Type 0 where
  start : Reach retention initial
  next : (r t : Registry) → Reach retention r → Step retention r t → Reach retention t

change_found-Inv :
    (sid : String) (o : Option Session) (f : Session → Session) (r : Registry)
    → ((s : Session) → (f s).job_id ≡ s.job_id)
    → lookup sid r.sessions ≡ o
    → Inv r
    → Inv (change_found sid o f r)
unfolding change_found
change_found-Inv sid none f r keeps h inv = inv
change_found-Inv sid (some s) f r keeps h inv = record {
  sessions_dict = insert-IsDict sid (f s) r.sessions inv.sessions_dict;
  jobs_dict = inv.jobs_dict;
  owned = Owned-change sid s (f s) r.sessions r.jobs (keeps s) h inv.owned;
}

change-Inv :
    (sid : String) (f : Session → Session) (r : Registry)
    → ((s : Session) → (f s).job_id ≡ s.job_id)
    → Inv r
    → Inv (change sid f r)
unfolding change
change-Inv sid f r keeps inv = change_found-Inv sid (lookup sid r.sessions) f r keeps refl inv

change_named-Inv :
    (o : Option String) (f : Session → Session) (r : Registry)
    → ((s : Session) → (f s).job_id ≡ s.job_id)
    → Inv r
    → Inv (change_named o f r)
unfolding change_named
change_named-Inv none f r keeps inv = inv
change_named-Inv (some sid) f r keeps inv = elim (Bool-cases (is_text sid)) [
  | inl e ↦ rw e (change-Inv sid f r keeps inv)
  | inr e ↦ rw e inv
]

drop_found-Inv :
    (sid : String) (o : Option Session) (r : Registry)
    → lookup sid r.sessions ≡ o
    → Inv r
    → Inv (drop_found sid o r)
unfolding drop_found
drop_found-Inv sid none r h inv = inv
drop_found-Inv sid (some s) r h inv = record {
  sessions_dict = erase-IsDict sid r.sessions inv.sessions_dict;
  jobs_dict = drop_job_of-IsDict sid s.job_id r.jobs inv.jobs_dict;
  owned = drop_found-Owned sid s r.sessions r.jobs h inv.owned;
}

drop_all-Inv : (sids : List String) (r : Registry) → Inv r → Inv (drop_all sids r)
unfolding drop_all
drop_all-Inv [] r inv = inv
drop_all-Inv (sid ∷ sids) r inv =
    drop_all-Inv sids _ (drop_found-Inv sid (lookup sid r.sessions) r refl inv)

pub prune-Inv : (retention now : ℕ) (r : Registry) → Inv r → Inv (prune retention now r)
unfolding prune
prune-Inv retention now r inv = drop_all-Inv (stale_ids retention now r.sessions) r inv

new_hls-Inv :
    (retention now : ℕ) (fresh : String) (q : Request) (r : Registry)
    → lookup fresh r.sessions ≡ none
    → Inv r
    → Inv (new_hls retention now fresh q r)
unfolding new_hls hls_session
new_hls-Inv retention now fresh q r h inv = prune-Inv retention now _ (record {
  sessions_dict = insert-IsDict fresh (hls_session now q) r.sessions inv.sessions_dict;
  jobs_dict = insert-IsDict q.job_id fresh r.jobs inv.jobs_dict;
  owned =
      Owned-job fresh q.job_id (hls_session now q) r.sessions r.jobs refl
        (Owned-new fresh (hls_session now q) r.sessions r.jobs h inv.owned);
})

register_found-Inv :
    (retention now : ℕ) (fresh : String) (q : Request) (sid : String) (o : Option Session)
    (r : Registry)
    → lookup fresh r.sessions ≡ none
    → lookup sid r.sessions ≡ o
    → Inv r
    → Inv (register_found retention now fresh q sid o r).0
unfolding register_found reported
register_found-Inv retention now fresh q sid none r h e inv =
    new_hls-Inv retention now fresh q r h inv
register_found-Inv retention now fresh q sid (some s) r h e inv = record {
  sessions_dict = insert-IsDict sid (reported now q.workload_id s) r.sessions inv.sessions_dict;
  jobs_dict = inv.jobs_dict;
  owned = Owned-change sid s (reported now q.workload_id s) r.sessions r.jobs refl e inv.owned;
}

register_named-Inv :
    (retention now : ℕ) (fresh : String) (q : Request) (o : Option String) (r : Registry)
    → lookup fresh r.sessions ≡ none
    → Inv r
    → Inv (register_named retention now fresh q o r).0
unfolding register_named
register_named-Inv retention now fresh q none r h inv = new_hls-Inv retention now fresh q r h inv
register_named-Inv retention now fresh q (some sid) r h inv = elim (Bool-cases (is_text sid)) [
  | inl e ↦ rw e (register_found-Inv retention now fresh q sid (lookup sid r.sessions) r h refl inv)
  | inr e ↦ rw e (new_hls-Inv retention now fresh q r h inv)
]

Step-Inv : (retention : ℕ) (r t : Registry) → Step retention r t → Inv r → Inv t
unfolding open_source note_bytes with_bytes close_source closed register_hls_job touch_hls
    with_agent end_hls finished
Step-Inv retention r t (Step.opening now sid info_hash file_idx agent r' h) inv =
    prune-Inv retention now _ (record {
      sessions_dict = insert-IsDict sid _ r.sessions inv.sessions_dict;
      jobs_dict = inv.jobs_dict;
      owned = Owned-new sid _ r.sessions r.jobs h inv.owned;
    })
Step-Inv retention r t (Step.noting now sid count r') inv =
    change-Inv sid (with_bytes now count) r (λ s. refl) inv
Step-Inv retention r t (Step.closing now sid r') inv = change-Inv sid (closed now) r (λ s. refl) inv
Step-Inv retention r t (Step.registering now fresh q r' h) inv =
    register_named-Inv retention now fresh q (lookup q.job_id r.jobs) r h inv
Step-Inv retention r t (Step.touching now job agent r') inv =
    change_named-Inv (lookup job r.jobs) (with_agent now agent) r (λ s. refl) inv
Step-Inv retention r t (Step.ending now job r') inv =
    change_named-Inv (lookup job r.jobs) (finished now) _ (λ s. refl)
      (record {
        sessions_dict = inv.sessions_dict;
        jobs_dict = erase-IsDict job r.jobs inv.jobs_dict;
        owned = Owned-erase job r.sessions r.jobs inv.owned;
      })
Step-Inv retention r t (Step.pruning now r') inv = prune-Inv retention now r inv

-- In every registry that a sequence of calls leads to, neither dictionary has a key twice, and a job
-- with a name stands for a session that is there and has that job.
pub Reach-Inv : (retention : ℕ) (r : Registry) → Reach retention r → Inv r
unfolding lookup
Reach-Inv retention r Reach.start = record {
  sessions_dict = tt;
  jobs_dict = tt;
  owned = λ j q named m. absurd (none≢some m);
}
Reach-Inv retention t (Reach.next r t' p step) =
    Step-Inv retention r t step (Reach-Inv retention r p)
