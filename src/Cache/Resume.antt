-- ===== src/Cache/Resume.antt =====
-- `claimed_hashes`, `_prune_name_index` and `sweep_resume` of src/stremiosrv/cache.py: the records of
-- the .resume directory, which are retired when nothing claims them and they are old.
pub mod Sparing
use stremio_libtorrent_serve.Base.{
  ℕ, ◌+◌, ◌-◌, ◌*◌, ◌≤◌, ◌≡◌, Bool, true, false, not, ◌&&◌, ◌||◌, List, [], ◌∷◌, ◌++◌, Option, none,
  some, String, string_key, str_discrete, Dict, lookup, contains, keep, length, ends_with, lower,
  ite, ltb, leb, if◌then◌else◌,
}
use Prim.Native.String
use stremio_libtorrent_serve.Cache.Pass.{is_text}

-- A file of the .resume directory.
pub record Entry : Type 0 where
  pub name : String
  pub mtime : ℕ

-- What the sweep reads: the names in the cache root, the .resume directory, the name index (whose
-- own file is not among the entries) and the hashes of pins and of wanted files.
pub record Root : Type 0 where
  pub on_disk : List String
  pub entries : List Entry
  pub index : Dict String String
  pub pinned : List String
  pub wanted : List String

unfoldable pub indexed : List String → Dict String String → List String
indexed on_disk [] = []
indexed on_disk ((n, h) ∷ index) =
    let rest = indexed on_disk index in
    if is_text h && contains n on_disk then lower h ∷ rest else rest

unfoldable pub claimed_hashes : Root → List String
claimed_hashes root = indexed root.on_disk root.index ++ (root.pinned ++ root.wanted)

-- `name[:-len(suffix)]` of a name that ends with the suffix
unfoldable pub stem : String → String → String
stem String.[] suffix = String.[]
stem (String.◌∷◌ c s) suffix =
    let rest = stem s suffix in
    ite (str_discrete (String.◌∷◌ c s) suffix) String.[] (String.◌∷◌ c rest)

abbrev pub resume_suffix : String
resume_suffix = ".fastresume"

unfoldable pub has_record : String → List Entry → Bool
has_record name [] = false
has_record name (e ∷ entries) = ite (str_discrete name e.name) true (has_record name entries)

-- The entries of the index that name something on disk, or that a claim or a surviving record stands for.
unfoldable pub prune_name_index :
    List String → List Entry → List String → Dict String String → Dict String String
prune_name_index on_disk entries claimed index =
    keep
      (λ p.
        contains p.0 on_disk
        || contains (lower p.1) claimed
        || has_record (String.◌++◌ (lower p.1) resume_suffix) entries)
      index

-- What becomes of one file.
pub data Verdict : Type 0 where
  old_tmp : Verdict
  new_tmp : Verdict
  other : Verdict
  claimed : Verdict
  removed : Verdict
  kept : Verdict

-- The times are differences of the source's `cutoff` and `now - _TMP_MAX_AGE` with the file's time.
unfoldable pub verdict : ℕ → ℕ → List String → Entry → Verdict
verdict now max_age claims e =
    if ends_with e.name ".tmp"
    then if ltb (e.mtime + 86400) now then Verdict.old_tmp else Verdict.new_tmp
    else if not (ends_with e.name resume_suffix)
    then Verdict.other
    else if contains (lower (stem e.name resume_suffix)) claims
    then Verdict.claimed
    else if ltb (e.mtime + max_age) now
    then Verdict.removed
    else Verdict.kept

unfoldable pub is_removed : Verdict → Bool
is_removed Verdict.old_tmp = true
is_removed Verdict.removed = true
is_removed _ = false

pub record Counts : Type 0 where
  pub removed : ℕ
  pub kept : ℕ
  pub claimed : ℕ
  pub tmp : ℕ

unfoldable pub count : Verdict → Counts → Counts
count Verdict.old_tmp c = record {
  removed = c.removed;
  kept = c.kept;
  claimed = c.claimed;
  tmp = 1 + c.tmp;
}
count Verdict.removed c = record {
  removed = 1 + c.removed;
  kept = c.kept;
  claimed = c.claimed;
  tmp = c.tmp;
}
count Verdict.claimed c = record {
  removed = c.removed;
  kept = c.kept;
  claimed = 1 + c.claimed;
  tmp = c.tmp;
}
count Verdict.kept c = record {
  removed = c.removed;
  kept = 1 + c.kept;
  claimed = c.claimed;
  tmp = c.tmp;
}
count _ c = c

unfoldable pub counts : ℕ → ℕ → List String → List Entry → Counts
counts now max_age claims [] = record { removed = 0; kept = 0; claimed = 0; tmp = 0 }
counts now max_age claims (e ∷ entries) =
    count (verdict now max_age claims e) (counts now max_age claims entries)

pub record Swept : Type 0 where
  pub root : Root
  pub counts : Counts
  pub index_pruned : ℕ

unfoldable pub surviving : ℕ → ℕ → List String → List Entry → List Entry
surviving now max_age claims entries =
    keep (λ e. not (is_removed (verdict now max_age claims e))) entries

-- A positive number of days.
unfoldable pub sweep_enabled : ℕ → ℕ → Root → Swept
sweep_enabled max_age_days now root =
    let claims = claimed_hashes root in
    let left = surviving now (max_age_days * 86400) claims root.entries in
    let index = prune_name_index root.on_disk left claims root.index in
    record {
      root = record {
        on_disk = root.on_disk;
        entries = left;
        index = index;
        pinned = root.pinned;
        wanted = root.wanted;
      };
      counts = counts now (max_age_days * 86400) claims root.entries;
      index_pruned = length root.index - length index;
    }

unfoldable pub sweep_resume : ℕ → ℕ → Root → Swept
sweep_resume max_age_days now root =
    if leb max_age_days 0
    then record {
      root = root;
      counts = record { removed = 0; kept = 0; claimed = 0; tmp = 0 };
      index_pruned = 0;
    }
    else sweep_enabled max_age_days now root
