-- ===== src/Cache/Owner.antt =====
-- `read_owner`, `write_owner` and `evictor_may_run` of src/stremiosrv/cache.py: the claim on a cache
-- root, by which one server at a time deletes from it.
use stremio_libtorrent_serve.Base.{
  ℕ, ◌+◌, ◌-◌, ◌≤◌, ◌<◌, ◌≡◌, ◌≢◌, refl, ◌⊎◌, inl, inr, Bool, true, false, Bool-cases, ◌&&◌, List,
  [], ◌∷◌, Option, none, some, String, str_discrete, arith, leb, ite, if_pos, if_neg, if◌then◌else◌,
}

-- `_TOKEN` and `_HOST` of a running server.
pub record Server : Type 0 where
  pub token : String
  pub host : String

-- The contents of `.evictor-owner`.
pub record Claim : Type 0 where
  pub token : String
  pub host : String
  pub heartbeat : ℕ

-- The file after a write, which fails on a root that is read-only.
unfoldable pub write_owner : Bool → Server → ℕ → Option Claim → Option Claim
write_owner writable me now file =
    if writable then some (record { token = me.token; host = me.host; heartbeat = now }) else file

-- `rec.get("token") != _TOKEN and rec.get("host") != _HOST`
unfoldable pub is_rival : Server → Claim → Bool
is_rival me rec =
    ite (str_discrete rec.token me.token) false (ite (str_discrete rec.host me.host) false true)

pub record Answer : Type 0 where
  pub file : Option Claim
  pub may_run : Bool
  pub rival : Option Claim

unfoldable pub claim_root : Bool → Server → ℕ → Option Claim → Answer
claim_root writable me now file = record {
  file = write_owner writable me now file;
  may_run = true;
  rival = none;
}

-- The number is `stale_after`.
unfoldable pub evictor_may_run : Bool → ℕ → Server → ℕ → Option Claim → Answer
evictor_may_run writable stale_after me now none = claim_root writable me now none
evictor_may_run writable stale_after me now (some rec) =
    if is_rival me rec && leb (now - rec.heartbeat) stale_after
    then record { file = some rec; may_run = false; rival = some rec }
    else claim_root writable me now (some rec)

-- Attempts of servers on one root, in the order of their file accesses: who may run.
pub record Attempt : Type 0 where
  pub server : Server
  pub time : ℕ

unfoldable pub attempts : ℕ → List Attempt → Option Claim → List Bool
attempts stale_after [] file = []
attempts stale_after (a ∷ rest) file =
    let answer = evictor_may_run true stale_after a.server a.time file in
    answer.may_run ∷ attempts stale_after rest answer.file

-- Every attempt is by a rival of the server and not later than the time.
abbrev pub Rivals : Server → ℕ → List Attempt → Type 0
Rivals me until [] = Unit {0}
Rivals me until (a ∷ rest) =
    (a.server.token ≢ me.token)
    × (a.server.host ≢ me.host)
    × (a.time ≤ until)
    × Rivals me until rest

abbrev pub refusals : List Attempt → List Bool
refusals [] = []
refusals (a ∷ rest) = false ∷ refusals rest

-- A server is never locked out of its root for good: with a claim rest old rest `stale_after`, or one
-- of its own host, it may run.
pub evictor_may_run-free :
    (writable : Bool) (stale_after now : ℕ) (me : Server) (rec : Claim)
    → (rec.heartbeat + stale_after < now) ⊎ (rec.host ≡ me.host)
    → (evictor_may_run writable stale_after me now (some rec)).may_run ≡ true
unfolding evictor_may_run claim_root is_rival
evictor_may_run-free writable stale_after now me rec (inl h) = elim (Bool-cases (is_rival me rec)) [
  | inl e ↦ ground arith
  | inr e ↦ ground arith
]
evictor_may_run-free writable stale_after now me rec (inr h) =
    elim (str_discrete rec.token me.token) [
      | yes p ↦
          rw
            (if_pos (str_discrete rec.token me.token) p false
              (ite (str_discrete rec.host me.host) false true))
            refl
      | no p ↦
          rw
            (if_neg (str_discrete rec.token me.token) p false
              (ite (str_discrete rec.host me.host) false true))
            (rw (if_pos (str_discrete rec.host me.host) h false true) refl)
    ]
