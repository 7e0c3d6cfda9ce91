-- ===== src/Transcode/Registry/Directories.antt =====
-- Names that `Converter` turns into paths: `job_dir`, `_workload_dir` and `job_file`.
use stremio_libtorrent_serve.Base.{
  Bool, true, false, not, ◌&&◌, Option, none, some, String, codes, has_code, all_codes,
  is_lower_hex, length, if◌then◌else◌, ◌==◌, ite, string_key,
}

pub data Fault : Type 0 where
  unsafe unresolvable invalid_key no_process : Fault

pub data Result {ℓ} (A : Type ℓ) : Type ℓ where
  ok : A → Result A
  fail : Fault → Result A

infixl 5 ◌>>=◌
abbrev pub ◌>>=◌ {ℓ κ} : {A : Type ℓ} {B : Type κ} → Result A → (A → Result B) → Result B
ok a >>= f = f a
fail e >>= f = fail e

-- A single path component: not empty, not a dot name, no separator.
unfoldable pub is_component : String → Bool
is_component name = ite (string_key.same name "") false (
    ite (string_key.same name ".") false (
      ite (string_key.same name "..") false
        (not (has_code b'/' (codes name)) && not (has_code 92 (codes name)))))

-- `candidate.resolve().parent` against the directory, `none` where it raises.
unfoldable pub inside : String → Option Bool → Result String
inside name none = fail unresolvable
inside name (some false) = fail unsafe
inside name (some true) = ok name

unfoldable pub job_dir : (String → Option Bool) → String → Result String
unfolding is_component inside
job_dir resolves job = if is_component job then inside job (resolves job) else fail unsafe

-- Every workload key is a SHA-256 digest in lower-case hex.
unfoldable pub workload_dir : String → Result String
workload_dir key =
    if length (codes key) == 64 && all_codes is_lower_hex (codes key)
    then ok key
    else fail invalid_key
