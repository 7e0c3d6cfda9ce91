-- ===== src/Library/Labels.antt =====
-- src/stremiosrv/library/labels.py: what a torrent is called, by the page and by the player.
pub mod Choices
use Prim.Native.String
use stremio_libtorrent_serve.Base.{
  ℕ, zero, suc, Bool, true, false, not, ◌&&◌, ◌||◌, List, [], ◌∷◌, Option, none, some, String,
  string_key, str_discrete, Dict, lookup, insert, erase, keep, contains, lower, ite, if◌then◌else◌,
}

-- The `file` of a label: any value that has not a text for a name and a number for a size is no file.
pub data FileValue : Type 0 where
  no_file : FileValue
  file : String → ℕ → FileValue

-- A value that holds, as a name that is not empty and a positive size.
unfoldable pub file_record : FileValue → Option (String × ℕ)
file_record (FileValue.file (String.◌∷◌ c s) (suc n)) = some (String.◌∷◌ c s, suc n)
file_record _ = none

-- Fields have their values by their JSON text.
pub record Label : Type 0 where
  pub fields : Dict String String
  pub file : FileValue
  pub added_at : Option ℕ
  pub last_source_at : Option ℕ

-- What labels.json has for a hash: a label, or a value that is no dictionary, by its truth.
pub data Stored : Type 0 where
  entry : Label → Stored
  other : Bool → Stored

abbrev pub Labels : Type 0
Labels = Dict String Stored

-- `FIELDS`
abbrev pub page_fields : List String
page_fields = "metaId" ∷ "videoId" ∷ "type" ∷ "name" ∷ "season" ∷ "episode" ∷ "poster" ∷ []

-- `LEARNED_FIELDS`, less `file`
abbrev pub learned_fields : List String
learned_fields = "metaId" ∷ "videoId" ∷ "type" ∷ "season" ∷ "episode" ∷ []

abbrev pub video_fields : List String
video_fields = "metaId" ∷ "season" ∷ "episode" ∷ []

unfoldable pub with_field : String → Option String → Dict String String → Dict String String
with_field k none rest = rest
with_field k (some v) rest = (k, v) ∷ rest

-- `{k: label[k] for k in fields if k in label}`
unfoldable pub selected : List String → Dict String String → Dict String String
selected [] label = []
selected (k ∷ keys) label = with_field k (lookup k label) (selected keys label)

unfoldable pub put : ℕ → String → Dict String String → Labels → Labels
put now info_hash sent labels =
    insert (lower info_hash)
      (Stored.entry (record {
        fields = selected page_fields sent;
        file = FileValue.no_file;
        added_at = some now;
        last_source_at = none;
      }))
      labels

-- What a player's report carries.
pub record Report : Type 0 where
  pub fields : Dict String String
  pub file : FileValue

unfoldable pub recorded : Option (String × ℕ) → FileValue
recorded none = FileValue.no_file
recorded (some (name, size)) = FileValue.file name size

unfoldable pub learned : ℕ → Report → Label
learned now report = record {
  fields = selected learned_fields report.fields;
  file = recorded (file_record report.file);
  added_at = some now;
  last_source_at = none;
}

unfoldable pub is_there : FileValue → Bool
is_there FileValue.no_file = false
is_there (FileValue.file name size) = true

unfoldable pub has_time : Option ℕ → Bool
has_time none = false
has_time (some t) = true

unfoldable pub has_fields : Dict String String → Bool
has_fields [] = false
has_fields (p ∷ d) = true

-- `if data.get(ih)`: a dictionary that is empty is false.
unfoldable pub is_true : Option Stored → Bool
is_true none = false
is_true (some (Stored.other b)) = b
is_true (some (Stored.entry l)) =
    has_fields l.fields || (is_there l.file || (has_time l.added_at || has_time l.last_source_at))

unfoldable pub learn : ℕ → String → Report → Labels → Labels × Bool
learn now info_hash report labels =
    let ih = lower info_hash in
    if is_true (lookup ih labels)
    then (labels, false)
    else (insert ih (Stored.entry (learned now report)) labels, true)

unfoldable pub same_text : Option String → Option String → Bool
same_text none none = true
same_text (some s) (some t) = ite (str_discrete s t) true false
same_text _ _ = false

unfoldable pub same_video : List String → Dict String String → Dict String String → Bool
same_video [] stored sent = true
same_video (k ∷ keys) stored sent =
    same_text (lookup k stored) (lookup k sent) && same_video keys stored sent

unfoldable pub has_file : FileValue → Bool
has_file v = elim (file_record v) [ none ↦ false | some f ↦ true ]

unfoldable pub add_found : String → Option Stored → (String × ℕ) → Report → Labels → Labels × Bool
add_found ih (some (Stored.entry l)) f report labels =
    if has_file l.file || not (same_video video_fields l.fields report.fields)
    then (labels, false)
    else (insert ih (Stored.entry (record l { file = FileValue.file f.0 f.1 })) labels, true)
add_found ih _ f report labels = (labels, false)

unfoldable pub add_valid : String → Option (String × ℕ) → Report → Labels → Labels × Bool
add_valid ih none report labels = (labels, false)
add_valid ih (some f) report labels = add_found ih (lookup ih labels) f report labels

unfoldable pub add_file : String → Report → Labels → Labels × Bool
add_file info_hash report labels =
    add_valid (lower info_hash) (file_record report.file) report labels

unfoldable pub touch_found : ℕ → String → Option Stored → Report → Labels → Labels × Bool
touch_found now ih (some (Stored.entry l)) report labels =
    if same_video video_fields l.fields report.fields
    then (insert ih (Stored.entry (record l { last_source_at = some now })) labels, true)
    else (labels, false)
touch_found now ih _ report labels = (labels, false)

unfoldable pub touch_last_source : ℕ → String → Report → Labels → Labels × Bool
touch_last_source now info_hash report labels =
    let ih = lower info_hash in
    if has_file report.file
    then touch_found now ih (lookup ih labels) report labels
    else (labels, false)

unfoldable pub drop : String → Labels → Labels
drop info_hash labels = erase (lower info_hash) labels
